-- ===== src/Examples/Prompt.antt =====
-- cmd/gzb/repl_grammar.go at concrete inputs.
use gzb.Base.{◌≡◌, refl, arith, [], ◌∷◌, Bytes}
use gzb.Base.Strings.{text, has_prefix}
use gzb.Prompt.Words.{tokenize, quote_word, common_prefix}
use gzb.Prompt.Words.Quoting.{texts, join_quoted, tokenize-join_quoted}
use gzb.Prompt.Words.Spans.{IsLaidOut, tokenize-IsLaidOut}
use gzb.Prompt.Words.Common.{IsCommonPrefix, common_prefix-IsCommonPrefix}

abbrev living_room : Bytes
living_room = text "living room"

tokenize_quoted :
    texts (tokenize (text "light  \"living room\" on"))
    ≡ text "light" ∷ living_room ∷ text "on" ∷ []
unfolding tokenize
tokenize_quoted = refl

quote_word_spaced : quote_word living_room ≡ text "\"living room\""
unfolding quote_word
quote_word_spaced = refl

-- A name with a quote in it cannot be typed.
quote_in_name : texts (tokenize (quote_word (text "5\" lamp"))) ≡ text "5" ∷ text "lamp" ∷ []
unfolding tokenize quote_word
quote_in_name = refl

tokenize-join_quoted_example :
    texts (tokenize (join_quoted (text "read" ∷ living_room ∷ []))) ≡ text "read" ∷ living_room ∷ []
tokenize-join_quoted_example =
    tokenize-join_quoted (text "read" ∷ living_room ∷ [])
      ((λ e. cc, omega arith), ((λ e. cc, omega arith), tt))

tokenize-IsLaidOut_example :
    IsLaidOut 0 (text "read \"living ro") (tokenize (text "read \"living ro"))
tokenize-IsLaidOut_example = tokenize-IsLaidOut (text "read \"living ro")

common_prefix_two : common_prefix (text "reporting" ∷ text "read" ∷ []) ≡ text "re"
unfolding common_prefix has_prefix
common_prefix_two = refl

common_prefix-IsCommonPrefix_example :
    IsCommonPrefix
      (common_prefix (text "reporting" ∷ text "read" ∷ []))
      (text "reporting" ∷ text "read" ∷ [])
common_prefix-IsCommonPrefix_example =
    common_prefix-IsCommonPrefix (text "reporting") (text "read" ∷ [])
