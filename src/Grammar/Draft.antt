-- ===== src/Grammar/Draft.antt =====
-- `gr_admissible` and `gr_forced` of c/util/grammar.h: the bytes that the stacks admit, and the
-- prefix that they force.
use moty.Base.{
  ℕ, zero, suc, ◌+◌, Bool, true, false, not, ◌&&◌, ◌||◌, List, [], ◌∷◌, leb, ◌==◌, if◌then◌else◌,
}
use moty.Grammar.Syntax.{ByteSet, Grammar, Stack}
use moty.Grammar.Walker.{
  Walk, ok, fault, ◌>>=◌, broken, exhausted, terminal, call, top_of, State, consumed, accept,
}

-- The loop over the stacks: the union of the classes at their tops, and whether one is empty. The
-- class of a reference has no bit set.
unfoldable pub mask_loop : Grammar → List Stack → ByteSet → Bool → Walk (ByteSet × Bool)
mask_loop g [] m end = ok (m, end)
mask_loop g ([] ∷ ks) m end = mask_loop g ks m true
mask_loop g ((f ∷ k) ∷ ks) m end = elim (top_of g f) [
  | broken ↦ fault
  | exhausted ↦ fault
  | call r ↦ mask_loop g ks m end
  | terminal c ↦ mask_loop g ks (λ b. m b || c b) end
]

-- The number of bits set among the first `n`.
unfoldable pub count_set : ℕ → ByteSet → ℕ
count_set zero m = 0
count_set (suc n) m = (if m n then 1 else 0) + count_set n m

-- The mask, `can_end` and the count.
pub record Admissible : Type 0 where
  pub mask : ByteSet
  pub can_end : Bool
  pub count : ℕ

unfoldable pub admissible : Grammar → List Stack → Walk Admissible
admissible g ks = mask_loop g ks (λ _. false) false >>= λ r.
    ok (record { mask = r.0; can_end = r.1; count = count_set 256 r.0 })

-- `while(b<256 && !bit(b)) b++`, with the number of bytes left.
unfoldable pub first_set : ℕ → ℕ → ByteSet → ℕ
first_set zero b m = b
first_set (suc n) b m = let later = first_set n (suc b) m in if m b then b else later

module _ (g : Grammar) where
  -- The loop of `gr_forced`; the first argument is `max - n`.
  unfoldable pub forced_loop : ℕ → State → Walk (List ℕ)
  forced_loop zero st = ok []
  forced_loop (suc n) st = admissible g st.stacks >>= λ adm.
      elim (adm.count == 1 && not adm.can_end) [
        | false ↦ ok []
        | true ↦
            let b = first_set 256 0 adm.mask in
            elim (leb 256 b) [
              | true ↦ ok []
              | false ↦ accept g b st >>= λ r. elim r.0 [
                | consumed ↦ forced_loop n r.1 >>= λ p. ok (b ∷ p)
                | _ ↦ ok []
              ]
            ]
      ]

  -- `gr_forced`: the bytes written; the state is copied and not changed.
  unfoldable pub forced : ℕ → State → Walk (List ℕ)
  forced max st = elim st.stacks [
    | [] ↦ ok []
    | k ∷ ks ↦ if st.alive then forced_loop max st else ok []
  ]
