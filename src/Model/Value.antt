-- ===== src/Model/Value.antt =====
-- The `any` values of metadata and audit details, each constructor a Go type that a type switch of
-- the modelled code tells apart. Floats and negative numbers do not occur in what it reads.
use moltenhub.Base.{ℕ, Bool, Option, List, [], ◌∷◌}
use moltenhub.Base.Text.{Text}
use moltenhub.Base.Dict.{Dict, get_or}
use moltenhub.Model.Clock.{Time}

mutual
  pub data Value : Type 0 where
    null : Value
    boolean : Bool → Value
    number : ℕ → Value
    string : Text → Value
    -- *string
    string_pointer : Option Text → Value
    -- time.Time and *time.Time
    time : Time → Value
    time_pointer : Option Time → Value
    -- []string
    strings : List Text → Value
    -- []any
    list : Items → Value
    -- map[string]any
    object : Fields → Value
    -- []map[string]any
    objects : Rows → Value

  pub data Items : Type 0 where
    nil : Items
    cons : Value → Items → Items

  pub data Fields : Type 0 where
    end : Fields
    field : Text → Value → Fields → Fields

  pub data Rows : Type 0 where
    done : Rows
    row : Fields → Rows → Rows

-- map[string]any where it stands by itself.
abbrev pub Metadata : Type 0
Metadata = Dict Value

unfoldable pub fields_dict : Fields → Metadata
fields_dict end = []
fields_dict (field k v fs) = (k, v) ∷ fields_dict fs

unfoldable pub dict_fields : Metadata → Fields
dict_fields [] = end
dict_fields ((k, v) ∷ m) = field k v (dict_fields m)

unfoldable pub rows_list : Rows → List Metadata
unfolding fields_dict
rows_list done = []
rows_list (row fs rs) = fields_dict fs ∷ rows_list rs

unfoldable pub list_rows : List Metadata → Rows
unfolding dict_fields
list_rows [] = done
list_rows (m ∷ ms) = row (dict_fields m) (list_rows ms)

-- m[k]: a missing key reads as nil.
abbrev pub value_at : Metadata → Text → Value
value_at m k = get_or m k null
