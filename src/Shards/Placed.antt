-- ===== src/Shards/Placed.antt =====
-- Where the tensors of c/io/st.h lie, when their files are indexed.
use moty.Base.{
  ℕ, ◌+◌, ◌-◌, ◌^◌, ◌≤◌, ◌≡◌, refl, inl, inr, ◌⊎◌, false, ◌||◌, Option, none, some, List, [], ◌∷◌,
  ◌++◌, length, get_elem?, All, All-append, ltb, ◌>>=◌, ℤ, pos, negsuc, arith, Bool-cases, if_cases,
}
use moty.Json.Values.{Kids, no_kids, kid, Fields, no_fields, field}
use moty.Json.Access.{same_str, num}
use moty.Shards.Tensor.{StTensor, st_dtype_code, to_int64}
use moty.Shards.File.{past_file, place_of, tensor_of, declared, metadata, index_fields}

-- The data ends in the file, or at `2^63` or above, where the sum that is compared wraps around.
pub record Lies (fsz : ℕ) (t : StTensor) : Type 0 where
  pub start : ℕ
  pub at_start : t.off ≡ to_int64 start
  pub ends : (start + t.nbytes ≤ fsz) ⊎ (2 ^ 63 ≤ start + t.nbytes)

-- The tensor lies in the file that its `fd` is open on.
pub record LiesIn (files : List ℕ → Option (List ℕ)) (paths : List (List ℕ)) (t : StTensor)
    : Type 0 where
  pub path : List ℕ
  pub file : List ℕ
  pub is_open : get_elem? paths t.fd ≡ some path
  pub is_file : files path ≡ some file
  pub lies : Lies (length file) t

-- What is known of a place that is accepted.
abbrev Place : ℕ → Option (ℤ × ℕ) → Type 0
Place fsz none = Unit
Place fsz (some (off, n)) =
    (start : ℕ) × (off ≡ to_int64 start) × ((start + n ≤ fsz) ⊎ (2 ^ 63 ≤ start + n))

end_of :
    (fsz d a b : ℕ)
    → (ltb b a || past_file fsz (d + b)) ≡ false
    → (d + a + (b - a) ≤ fsz) ⊎ (2 ^ 63 ≤ d + a + (b - a))
end_of fsz d a b good =
    let low : a ≤ b = ground arith in
    let same : d + a + (b - a) ≡ d + b = omega arith in
    rw same (elim (Bool-cases (ltb (d + b) (2 ^ 63))) [
      | inl near ↦ inl (ground arith)
      | inr far ↦ inr (ground arith)
    ])

place_of-Place : (fsz data_start : ℕ) (a0 b0 : ℤ) → Place fsz (place_of fsz data_start a0 b0)
place_of-Place fsz d (pos a) (pos b) = elim (Bool-cases (ltb b a || past_file fsz (d + b))) [
  | inl bad ↦ rw bad tt
  | inr good ↦ rw good (d + a, refl, end_of fsz d a b good)
]
place_of-Place fsz d (pos a) (negsuc b) = tt
place_of-Place fsz d (negsuc a) b = tt

abbrev MadeIn : ℕ → ℕ → Option StTensor → Type 0
MadeIn fd fsz none = Unit
MadeIn fd fsz (some t) = (t.fd ≡ fd) × Lies fsz t

module _ (int_of : ℕ → ℤ) where
  tensor_of-MadeIn :
      (name : List ℕ) (fd fsz : ℕ) (shape : Kids) (place : Option (ℤ × ℕ)) (dtype : Option ℕ)
      → Place fsz place
      → MadeIn fd fsz (tensor_of int_of name fd fsz shape place dtype)
  tensor_of-MadeIn name fd fsz shape none dtype h = tt
  tensor_of-MadeIn name fd fsz shape (some place) none h = tt
  tensor_of-MadeIn name fd fsz shape (some (off, n)) (some dtype) h =
      (refl, record { start = h.0; at_start = h.1; ends = h.2 })

  declared-MadeIn :
      (name : List ℕ) (fd fsz data_start : ℕ) (dt : Option (List ℕ)) (off shape : Option Kids)
      → MadeIn fd fsz (declared int_of name fd fsz data_start dt off shape)
  declared-MadeIn name fd fsz d none off shape = tt
  declared-MadeIn name fd fsz d (some dt) none shape = tt
  declared-MadeIn name fd fsz d (some dt) (some no_kids) shape = tt
  declared-MadeIn name fd fsz d (some dt) (some (kid a no_kids)) shape = tt
  declared-MadeIn name fd fsz d (some dt) (some (kid a (kid b more))) none = tt
  declared-MadeIn name fd fsz d (some dt) (some (kid a (kid b more))) (some shape) =
      tensor_of-MadeIn name fd fsz shape _ (st_dtype_code dt)
        (place_of-Place fsz d (int_of (num a)) (int_of (num b)))

  module _ (P : StTensor → Type 0) (fd fsz data_start : ℕ)
      (made : (t : StTensor) → t.fd ≡ fd → Lies fsz t → P t) where
    abbrev pub AllOf : Option (List StTensor) → Type 0
    AllOf none = Unit
    AllOf (some ts) = All P ts

    one_more :
        (ts : List StTensor) (o : Option StTensor) (others : List StTensor → Option (List StTensor))
        → ((ts' : List StTensor) → All P ts' → AllOf (others ts'))
        → MadeIn fd fsz o
        → All P ts
        → AllOf (o >>= λ t. others (ts ++ t ∷ []))
    one_more ts none others next m h = tt
    one_more ts (some t) others next m h =
        next (ts ++ t ∷ []) (All-append P ts (t ∷ []) h (made t m.0 m.1, tt))

    pub index_fields-AllOf :
        (fs : Fields) (ts : List StTensor)
        → All P ts
        → AllOf (index_fields int_of fd fsz data_start fs ts)
    index_fields-AllOf no_fields ts h = h
    index_fields-AllOf (field name m fs) ts h =
        if_cases AllOf (same_str name metadata) _ _ (λ e. index_fields-AllOf fs ts h)
          (λ e.
            one_more ts _ _ (λ ts' h'. index_fields-AllOf fs ts' h')
              (declared-MadeIn name fd fsz data_start _ _ _) h)
