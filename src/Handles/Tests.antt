-- ===== src/Handles/Tests.antt =====
-- Handles on sample texts.
use moltenhub.Base.{◌≡◌, length, leb}
use moltenhub.Base.Text.{Text, text}
use moltenhub.Handles.{normalize, matches_handle_regex}
use moltenhub.Handles.Shape.{
  IsNormal, normalize_idem, normalize-IsNormal, matches_handle_regex-normalize,
}

abbrev sample : Text
sample = text "  Ann's  Agent_-1! "

normalize_idem_example : normalize (normalize sample) ≡ normalize sample
normalize_idem_example = normalize_idem sample

normalize-IsNormal_example : IsNormal (normalize sample)
normalize-IsNormal_example = normalize-IsNormal sample

matches_handle_regex-normalize_example :
    matches_handle_regex (normalize sample) ≡ leb 2 (length (normalize sample))
matches_handle_regex-normalize_example = matches_handle_regex-normalize sample
