-- ===== src/Tok/ByteMap.antt =====
-- `tk_build_bytemap`: each byte as a code point that prints, and back.
use moty.Base.{
  ℕ, zero, suc, ◌+◌, ◌<◌, ◌≡◌, refl, Bool, true, false, ◌&&◌, inl, inr, Bool-cases, ==_iff, ◌||◌,
  Option, none, some, List, ◌++◌, length, ltb, leb, ◌==◌, if◌then◌else◌, arith,
}
use moty.Tok.Utf8.{u8_put, u8_next, u8_next-u8_put}

-- `isdir`: the bytes that stand for themselves.
unfoldable pub is_direct : ℕ → Bool
is_direct b = (leb 33 b && leb b 126) || (leb 161 b && leb b 172) || (leb 174 b && leb b 255)

-- `n` when the loop reaches `b`: the bytes below that do not.
unfoldable pub indirect_below : ℕ → ℕ
indirect_below zero = 0
indirect_below (suc b) = if is_direct b then indirect_below b else suc (indirect_below b)

unfoldable pub byte2cp : ℕ → ℕ
byte2cp b = if is_direct b then b else 256 + indirect_below b

unfoldable pub byte2str : ℕ → List ℕ
byte2str b = u8_put (byte2cp b)

-- `cp2byte` after the rounds of the bytes below `n`: the last write to an entry stays.
unfoldable pub cp2byte_below : ℕ → ℕ → Option ℕ
cp2byte_below zero cp = none
cp2byte_below (suc b) cp = if byte2cp b == cp && ltb cp 1024 then some b else cp2byte_below b cp

unfoldable pub cp2byte : ℕ → Option ℕ
cp2byte = cp2byte_below 256

abbrev holds : ℕ → Option ℕ → Bool
holds b none = false
holds b (some c) = c == b

holds-eq : (b : ℕ) (o : Option ℕ) → holds b o ≡ true → o ≡ some b
holds-eq b none h = cc
holds-eq b (some c) h = ground arith

-- A byte's code point is small, and leads back to the byte.
maps_back : ℕ → Bool
unfolding is_direct indirect_below byte2cp cp2byte_below cp2byte
maps_back b = ltb (byte2cp b) 512 && holds b (cp2byte (byte2cp b))

-- The bytes below a number, tried one by one.
abbrev tried : ℕ → Bool
tried zero = true
tried (suc last) = let before = tried last in if maps_back last then before else false

tried_all : tried 256 ≡ true
unfolding maps_back is_direct indirect_below byte2cp cp2byte_below cp2byte
tried_all = refl

maps_back_below : (bound b : ℕ) → tried bound ≡ true → b < bound → maps_back b ≡ true
maps_back_below zero b ok lt = absurd (omega arith)
maps_back_below (suc last) b ok lt = elim (Bool-cases (maps_back last)) [
  | inr wrong ↦ absurd (let no = rw wrong at ok in ground arith)
  | inl right ↦ elim (Bool-cases (b == last)) [
    | inl here ↦ rw ((==_iff b last).0 here) right
    | inr other ↦ maps_back_below last b (rw right at ok) (ground arith)
  ]
]

byte_checked : (b : ℕ) → b < 256 → (ltb (byte2cp b) 512 && holds b (cp2byte (byte2cp b))) ≡ true
unfolding maps_back
byte_checked b lt = maps_back_below 256 b tried_all lt

pub byte2cp-lt : (b : ℕ) → b < 256 → byte2cp b < 512
byte2cp-lt b lt = let h = byte_checked b lt in ground arith

-- The map from code points back to bytes undoes the map from bytes to code points.
pub cp2byte-byte2cp : (b : ℕ) → b < 256 → cp2byte (byte2cp b) ≡ some b
cp2byte-byte2cp b lt = let h = byte_checked b lt in holds-eq b _ (ground arith)

-- The string of a byte is read back as its code point, whatever follows.
pub u8_next-byte2str :
    (b : ℕ) (s : List ℕ) → b < 256 → u8_next (byte2str b ++ s) ≡ (byte2cp b, length (byte2str b))
unfolding byte2str
u8_next-byte2str b s lt = u8_next-u8_put (byte2cp b) s (omega (arith, byte2cp-lt b lt))
