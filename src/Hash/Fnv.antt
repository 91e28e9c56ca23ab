-- ===== src/Hash/Fnv.antt =====
-- FNV-1a on 64 bits: `tk_fnv` of c/tok/tok.h and `st_hash` of c/io/st.h, which are the same function.
use moty.Base.{ℕ, ◌*◌, ◌%◌, ◌^◌, List, [], ◌∷◌}
use Prim.Native.Nat.{bit_xor}

-- The loop on the bytes, from a state on.
abbrev pub fnv_from : ℕ → List ℕ → ℕ
fnv_from h [] = h
fnv_from h (b ∷ s) = fnv_from (bit_xor h b * 1099511628211 % 2 ^ 64) s

unfoldable pub fnv : List ℕ → ℕ
fnv s = fnv_from 1469598103934665603 s
