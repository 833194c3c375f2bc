-- ===== src/Base64/RoundTrip.antt =====
-- What base64 encodes is what it decodes.
use eparallel.Common.{ℕ, ◌<◌, List, [], ◌∷◌}

abbrev pub AllBytes : List ℕ → Type 0
AllBytes [] = Unit {0}
AllBytes (x ∷ s) = (x < 256) × AllBytes s
