-- ===== src/Shards/Counts.antt =====
-- A file of c/io/st.h holds at most 2^29 tensors, as its header has at most so many bytes.
use moty.Base.{
  ℕ, zero, suc, ◌+◌, ◌-◌, ◌*◌, ◌^◌, ◌≤◌, ◌≡◌, ◌||◌, Option, none, some, List, [], ◌∷◌, ◌++◌, length,
  take, drop, ltb, ◌>>=◌, ◌==◌, ℤ, arith, if_cases, length-append,
}
use moty.Json.Values.{
  Jval, j_null, j_bool, j_num, j_str, j_arr, j_obj, Fields, no_fields, field, Got, got, past_end,
  no_rounds,
}
use moty.Json.Access.{c_str, same_str}
use moty.Json.Counts.{members, IsSmall, json_parse-IsSmall}
use moty.Shards.Tensor.{StTensor, StShards}
use moty.Shards.File.{
  little_endian, Indexed, indexed, failed, unread, metadata, with_tensors, tensor_at, index_fields,
  index_root, index_header,
}

length-c_str : (s : List ℕ) → length (c_str s) ≤ length s
length-c_str [] = omega arith
length-c_str (c ∷ s) =
    if_cases (λ (t : List ℕ). length t ≤ length (c ∷ s)) (c == 0) _ _ (λ e. omega arith)
      (λ e. omega (arith, length-c_str s))

length-take : (n : ℕ) (xs : List ℕ) → length (take n xs) ≤ n
length-take zero xs = omega arith
length-take (suc n) [] = omega arith
length-take (suc n) (x ∷ xs) = omega (arith, length-take n xs)

-- What a step leaves has at most `n` tensors.
abbrev Lists : ℕ → Option (List StTensor) → Type 0
Lists n none = Unit
Lists n (some ts) = length ts ≤ n

abbrev pub HasFew : ℕ → Indexed → Type 0
HasFew n (indexed S) = length S.t ≤ n
HasFew n (failed f) = Unit
HasFew n unread = Unit

module _ (int_of : ℕ → ℤ) where
  module _ (fd fsz data_start : ℕ) where
    one_tensor :
        (n : ℕ) (ts : List StTensor) (o : Option StTensor)
        (others : List StTensor → Option (List StTensor))
        → ((ts' : List StTensor) → length ts' ≡ suc (length ts) → Lists n (others ts'))
        → Lists n (o >>= λ t. others (ts ++ t ∷ []))
    one_tensor n ts none others few = tt
    one_tensor n ts (some t) others few =
        few (ts ++ t ∷ []) (omega (arith, length-append ts (t ∷ [])))

    index_fields-Lists :
        (fs : Fields) (ts : List StTensor) (n : ℕ)
        → length ts + members fs ≤ n
        → Lists n (index_fields int_of fd fsz data_start fs ts)
    index_fields-Lists no_fields ts n le = omega (arith, le)
    index_fields-Lists (field name m fs) ts n le =
        if_cases (Lists n) (same_str name metadata) _ _
          (λ e. index_fields-Lists fs ts n (omega (arith, le)))
          (λ e.
            one_tensor n ts (tensor_at int_of fd fsz data_start name m) _
              (λ ts' longer. index_fields-Lists fs ts' n (omega (arith, le, longer))))

    index_root-HasFew :
        (n : ℕ) (S : StShards) (r : Got Jval)
        → IsSmall n r
        → HasFew (length S.t + n) (index_root int_of fd fsz data_start S r)
    index_root-HasFew n S (got (j_obj fs) rest) small =
        left _ (index_fields-Lists fs S.t (length S.t + n) (omega (arith, small)))
      where
        left :
            (o : Option (List StTensor))
            → Lists (length S.t + n) o
            → HasFew (length S.t + n) (with_tensors S o)
        left none h = tt
        left (some ts) h = h
    index_root-HasFew n S (got j_null rest) small = tt
    index_root-HasFew n S (got (j_bool b) rest) small = tt
    index_root-HasFew n S (got (j_num d) rest) small = tt
    index_root-HasFew n S (got (j_str s) rest) small = tt
    index_root-HasFew n S (got (j_arr ks) rest) small = tt
    index_root-HasFew n S past_end small = tt
    index_root-HasFew n S no_rounds small = tt

  pub index_header-HasFew :
      (strtoul : List ℕ → ℕ) (strtod : List ℕ → ℕ × ℕ) (fd : ℕ) (file : List ℕ) (S : StShards)
      → length S.t ≡ 0
      → HasFew (2 ^ 29) (index_header int_of strtoul strtod fd file S)
  index_header-HasFew strtoul strtod fd file S empty =
      let hlen = little_endian (take 8 file) in
      let text = c_str (take hlen (drop 8 file)) in
      if_cases (HasFew (2 ^ 29)) (ltb (length file) 8) _ _ (λ e. tt)
        (λ e.
          if_cases (HasFew (2 ^ 29)) (ltb (length file - 8) hlen || ltb (512 * 2 ^ 20) hlen) _ _
            (λ e. tt)
            (λ e.
              let fits : hlen ≤ 2 ^ 29 = ground arith in
              wider (length S.t + length text) _
                (omega (
                  arith,
                  empty,
                  fits,
                  length-c_str (take hlen (drop 8 file)),
                  length-take hlen (drop 8 file),
                ))
                (index_root-HasFew fd (length file) (8 + hlen) (length text) S _
                  (json_parse-IsSmall strtoul strtod text))))
    where
      wider : (n : ℕ) (r : Indexed) → n ≤ 2 ^ 29 → HasFew n r → HasFew (2 ^ 29) r
      wider n (indexed S') le h = omega (arith, le, h)
      wider n (failed f) le h = tt
      wider n unread le h = tt
