-- ===== src/Tests/Classify.antt =====
-- txerror.go at the failures that its test names.
use bundler_go.Base.{◌≡◌, ◌↔◌, ◌⊎◌, [], Text, codes, pos, Occurs}
use bundler_go.Txerror.{revert, classify, low_text}
use bundler_go.Txerror.Contract.{HasCode, classify-revert_iff}

abbrev message : Text
message = codes "execution reverted: AC010"

classify-revert_iff_example :
    ((classify message [] (pos 3)).category ≡ revert)
    ↔ (HasCode [] message ⊎ Occurs (codes "execution reverted") (low_text message []))
classify-revert_iff_example = classify-revert_iff message [] (pos 3)
