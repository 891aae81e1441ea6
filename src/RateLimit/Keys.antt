-- ===== src/RateLimit/Keys.antt =====
-- The two keys of a bucket differ.
use model_lib.Base.{◌≢◌, [], ◌∷◌, Bytes, ap}
use model_lib.RateLimit.{stamp}

tail : Bytes → Bytes
tail [] = []
tail (c ∷ cs) = cs

pub stamp_other : (key : Bytes) → stamp key ≢ key
unfolding stamp tail
stamp_other [] e = cc
stamp_other (c ∷ cs) e = stamp_other cs (ap tail e)
