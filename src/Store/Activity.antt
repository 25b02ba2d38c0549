-- ===== src/Store/Activity.antt =====
-- The activity log that the store keeps in an agent's metadata, in internal/store/memory.go.
use moltenhub.Base.{
  ℕ, ◌-◌, Bool, false, ◌||◌, Option, none, some, List, [], ◌∷◌, ◌++◌, length, take, drop, is_empty,
  ltb, leb, if◌then◌else◌,
}
use moltenhub.Base.Text.{Text, text, text_eq, trim_space, to_lower}
use moltenhub.Base.Dict.{put, remove}
use moltenhub.Model.Value.{
  Value, string, strings, list, object, objects, Items, nil, cons, Metadata, value_at, fields_dict,
  rows_list,
}

abbrev pub max_agent_activity_entries : ℕ
max_agent_activity_entries = 512

abbrev pub max_agent_activity_chars : ℕ
max_agent_activity_chars = 128

-- copyMetadata(m): a map with the same entries.
abbrev pub copy_metadata : Metadata → Metadata
copy_metadata m = m

unfoldable pub string_value : Value → Text
string_value (string t) = trim_space t
string_value _ = []

unfoldable pub normalize_activity_text : Text → Text
normalize_activity_text value =
    let trimmed = trim_space value in
    if leb (length trimmed) max_agent_activity_chars
    then trimmed
    else take max_agent_activity_chars trimmed

abbrev or_else : Text → Text → Text
or_else a b = if is_empty a then b else a

-- entry[k] = v, or delete(entry, k) if v is empty.
abbrev put_or_remove : Metadata → Text → Text → Metadata
put_or_remove m k v = if is_empty v then remove m k else put m k (string v)

activity_text_of : Metadata → Text
unfolding string_value normalize_activity_text
activity_text_of entry =
    or_else (normalize_activity_text (string_value (value_at entry (text "activity")))) (
      or_else (normalize_activity_text (string_value (value_at entry (text "text"))))
        (normalize_activity_text (string_value (value_at entry (text "title")))))

unfoldable pub parse_activity_entry_object : Metadata → Option Metadata
unfolding activity_text_of string_value
parse_activity_entry_object raw =
    let activity = activity_text_of raw in
    if is_empty activity
    then none
    else let entry = put (copy_metadata raw) (text "activity") (string activity) in
      let at =
        or_else (string_value (value_at entry (text "at")))
          (string_value (value_at entry (text "timestamp"))) in
      let dated = remove (put_or_remove entry (text "at") at) (text "timestamp") in
      some (put_or_remove dated (text "source") (string_value (value_at dated (text "source"))))

append_text : List Metadata → Text → List Metadata
unfolding normalize_activity_text
append_text out value =
    let t = normalize_activity_text value in
    if is_empty t then out else out ++ ((text "activity", string t) ∷ []) ∷ []

append_object : List Metadata → Metadata → List Metadata
unfolding parse_activity_entry_object
append_object out obj = elim (parse_activity_entry_object obj) [
  | none ↦ out
  | some entry ↦ out ++ entry ∷ []
]

append_objects : List Metadata → List Metadata → List Metadata
unfolding append_object
append_objects out [] = out
append_objects out (obj ∷ rest) = append_objects (append_object out obj) rest

append_texts : List Metadata → List Text → List Metadata
unfolding append_text
append_texts out [] = out
append_texts out (t ∷ rest) = append_texts (append_text out t) rest

append_item : List Metadata → Value → List Metadata
unfolding append_text append_object fields_dict
append_item out (string t) = append_text out t
append_item out (object fs) = append_object out (fields_dict fs)
append_item out _ = out

append_items : List Metadata → Items → List Metadata
unfolding append_item
append_items out nil = out
append_items out (cons v rest) = append_items (append_item out v) rest

unfoldable pub parse_activity_entries : Value → List Metadata
unfolding append_objects append_texts append_items append_item rows_list
parse_activity_entries (objects rows) = append_objects [] (rows_list rows)
parse_activity_entries (strings ts) = append_texts [] ts
parse_activity_entries (list items) = append_items [] items
parse_activity_entries v = append_item [] v

unfoldable pub activity_entry_dedupe_key : Metadata → Text
unfolding string_value
activity_entry_dedupe_key entry =
    let event_id = string_value (value_at entry (text "event_id")) in
    if is_empty event_id
    then to_lower (string_value (value_at entry (text "source")))
      ++ (text "|"
          ++ (string_value (value_at entry (text "activity"))
              ++ (text "|"
                  ++ (string_value (value_at entry (text "at"))
                      ++ (text "|"
                          ++ (string_value (value_at entry (text "category"))
                              ++ (text "|"
                                  ++ (string_value (value_at entry (text "action"))
                                      ++ (text "|"
                                          ++ string_value (value_at entry (text "status")))))))))))
    else text "event:" ++ event_id

unfoldable pub contains : List Text → Text → Bool
contains [] k = false
contains (j ∷ seen) k = text_eq j k || contains seen k

-- The body of the loop: the entry as it is kept, or nothing if it has no text.
normalize_entry : Metadata → Option Metadata
unfolding string_value normalize_activity_text
normalize_entry raw =
    let entry = copy_metadata raw in
    let activity = normalize_activity_text (string_value (value_at entry (text "activity"))) in
    if is_empty activity
    then none
    else let named = put entry (text "activity") (string activity) in
      let dated = put_or_remove named (text "at") (string_value (value_at named (text "at"))) in
      some (put_or_remove dated (text "source") (string_value (value_at dated (text "source"))))

keep_new : List Text → List Metadata → Option Metadata → List Text × List Metadata
unfolding contains activity_entry_dedupe_key
keep_new seen out none = (seen, out)
keep_new seen out (some entry) =
    let key = activity_entry_dedupe_key entry in
    if contains seen key then (seen, out) else (key ∷ seen, out ++ entry ∷ [])

dedupe_loop : List Text → List Metadata → List Metadata → List Metadata
unfolding keep_new normalize_entry
dedupe_loop seen out [] = out
dedupe_loop seen out (raw ∷ entries) =
    let (seen', out') = keep_new seen out (normalize_entry raw) in dedupe_loop seen' out' entries

-- out[len(out)-limit:] if that cuts anything.
abbrev pub keep_last {ℓ} : {A : Type ℓ} → ℕ → List A → List A
keep_last limit out = if ltb limit (length out) then drop (length out - limit) out else out

unfoldable pub dedupe_and_trim_activity_entries : List Metadata → ℕ → List Metadata
unfolding dedupe_loop
dedupe_and_trim_activity_entries entries limit =
    let out = dedupe_loop [] [] entries in if ltb 0 limit then keep_last limit out else out
