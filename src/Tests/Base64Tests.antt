-- ===== src/Tests/Base64Tests.antt =====
-- elog's base64 on concrete strings.
use eparallel.Common.{ℕ, some, ◌≡◌, refl, List, [], ◌∷◌}
use eparallel.Base64.{base64_encode}

-- "ab" and a byte that is no character.
abbrev text : List ℕ
text = 97 ∷ 98 ∷ 255 ∷ 0 ∷ []

-- "ab" is "YWI=".
encode_ab : base64_encode (97 ∷ 98 ∷ []) ≡ some (89 ∷ 87 ∷ 73 ∷ 61 ∷ [])
unfolding base64_encode
encode_ab = refl
