-- ===== src/Grammar/Admissible.antt =====
-- What `gr_admissible` reports, against the words that the stacks derive.
use moty.Base.{
  ℕ, zero, suc, ◌+◌, length, Distinct, ◌≢◌, ◌≤◌, ◌<◌, ◌≡◌, ◌↔◌, refl, sym, ◌∙◌, ◌⊎◌, inl, inr, Bool,
  true, false, ◌||◌, List, [], ◌∷◌, All, Any, arith, Bool-cases, ◌==◌, if◌then◌else◌,
}
use moty.Grammar.Syntax.{Sym, ByteSet, Grammar, Stack, cls}
use moty.Grammar.Language.{Matches, byte, symbols, Accepts}
use moty.Grammar.Walker.{terminal, top_of}
use moty.Grammar.Positions.{rest_of-class}
use moty.Grammar.Invariant.{IsNormal, IsValid}
use moty.Grammar.Accept.{Returns, Returns-map, Returns-bind}
use moty.Grammar.Draft.{mask_loop, count_set, Admissible, admissible, first_set}

-- The bytes below `n` in a set.
abbrev pub set_bytes : ℕ → ByteSet → List ℕ
set_bytes zero m = []
set_bytes (suc n) m = if m n then n ∷ set_bytes n m else set_bytes n m

count_set-length : (n : ℕ) (m : ByteSet) → count_set n m ≡ length (set_bytes n m)
unfolding count_set
count_set-length zero m = refl
count_set-length (suc n) m = elim (Bool-cases (m n)) [
  | inl e ↦ rw e (omega (arith, count_set-length n m))
  | inr e ↦ rw e (omega (arith, count_set-length n m))
]

set_bytes-listed :
    (n : ℕ) (m : ByteSet) (b : ℕ) → Any (λ x. x ≡ b) (set_bytes n m) ↔ ((b < n) × (m b ≡ true))
set_bytes-listed zero m b = ((λ h. absurd h), λ h. absurd (omega (arith, h.0)))
set_bytes-listed (suc n) m b =
    let (there, back) = set_bytes-listed n m b in
    elim (Bool-cases (m n)) [
      | inl e ↦ rw e (
        elim [
          | inl q ↦ (omega (arith, q), rw q at e)
          | inr h ↦ let (lt, t) = there h in (omega (arith, lt), t)
        ],
        λ (lt, t). elim (Bool-cases (n == b)) [
          | inl q ↦ inl (ground arith)
          | inr q ↦ inr (back (ground (arith, lt), t))
        ],
      )
      | inr e ↦ rw e (
        (λ h. let (lt, t) = there h in (omega (arith, lt), t)),
        λ (lt, t). elim (Bool-cases (n == b)) [
          | inl q ↦
              let same : n ≡ b = ground arith in absurd (let off = rw same at e in ground arith)
          | inr q ↦ back (ground (arith, lt), t)
        ],
      )
    ]

set_bytes-below : (n k : ℕ) (m : ByteSet) → n ≤ k → All (λ x. x ≢ k) (set_bytes n m)
set_bytes-below zero k m le = tt
set_bytes-below (suc n) k m le = elim (Bool-cases (m n)) [
  | inl e ↦ rw e ((λ q. omega (arith, q, le)), set_bytes-below n k m (omega arith))
  | inr e ↦ rw e (set_bytes-below n k m (omega arith))
]

set_bytes-Distinct : (n : ℕ) (m : ByteSet) → Distinct (set_bytes n m)
set_bytes-Distinct zero m = tt
set_bytes-Distinct (suc n) m = elim (Bool-cases (m n)) [
  | inl e ↦ rw e (set_bytes-below n n m (omega arith), set_bytes-Distinct n m)
  | inr e ↦ rw e (set_bytes-Distinct n m)
]

-- A list of one member holds one byte.
pub one_member :
    (xs : List ℕ) (i j : ℕ) → length xs ≡ 1 → Any (λ x. x ≡ i) xs → Any (λ x. x ≡ j) xs → i ≡ j
one_member [] i j e h k = absurd h
one_member (x ∷ []) i j e (inl h) (inl k) = sym h ∙ k
one_member (x ∷ []) i j e (inl h) (inr k) = absurd k
one_member (x ∷ []) i j e (inr h) k = absurd h
one_member (x ∷ y ∷ xs) i j e h k = absurd (omega arith)

pub first_set-lt : (n b : ℕ) (m : ByteSet) → first_set n b m < b + n → m (first_set n b m) ≡ true
unfolding first_set
first_set-lt zero b m lt = absurd (omega arith)
first_set-lt (suc n) b m lt = elim (Bool-cases (m b)) [
  | inl h ↦ rw (h, if◌then◌else◌) h
  | inr h ↦ rw h (first_set-lt n (suc b) m (let q = rw h at lt in omega arith))
]

module _ (g : Grammar) where
  -- The byte is in the class at the top of the stack.
  abbrev pub Starts : ℕ → Stack → Type 0
  Starts b [] = ⊥
  Starts b (f ∷ k) = (c : ByteSet) × (top_of g f ≡ terminal c) × (c b ≡ true)

  -- The mask and the flag of some stacks, added to a mask and a flag.
  record IsMask (ks : List Stack) (m : ByteSet) (end : Bool) (r : ByteSet × Bool) : Type 0 where
    pub union : (b : ℕ) → (r.0 b ≡ true) ↔ ((m b ≡ true) ⊎ Any (Starts b) ks)
    pub ends : (r.1 ≡ true) ↔ ((end ≡ true) ⊎ Any (λ k. k ≡ []) ks)

  or_true : (x y : Bool) → ((x || y) ≡ true) ↔ ((x ≡ true) ⊎ (y ≡ true))
  or_true true y = ((λ h. inl h), λ h. refl)
  or_true false y = ((λ h. inr h), elim [ inl h ↦ absurd (cc) | inr h ↦ h ])

  mask_loop-IsMask :
      (ks : List Stack) (m : ByteSet) (end : Bool)
      → All (IsNormal g) ks
      → Returns (IsMask ks m end) (mask_loop g ks m end)
  unfolding mask_loop
  mask_loop-IsMask [] m end n = record {
    union = λ b. ((λ h. inl h), elim [ inl h ↦ h | inr h ↦ absurd h ]);
    ends = ((λ h. inl h), elim [ inl h ↦ h | inr h ↦ absurd h ]);
  }
  mask_loop-IsMask ([] ∷ ks) m end n =
      Returns-map (mask_loop g ks m true) _ _ (mask_loop-IsMask ks m true n.1) (λ r h. record {
        union = λ b. (
          (λ x. elim ((h.union b).0 x) [ inl y ↦ inl y | inr y ↦ inr (inr y) ]),
          elim [
            | inl y ↦ (h.union b).1 (inl y)
            | inr (inl y) ↦ absurd y
            | inr (inr y) ↦ (h.union b).1 (inr y)
          ],
        );
        ends = ((λ _. inr (inl refl)), λ _. h.ends.1 (inl refl));
      })
  mask_loop-IsMask ((f ∷ k) ∷ ks) m end ((c, e), n) =
      rw (e, mask_loop)
        (Returns-map (mask_loop g ks (λ b. m b || c b) end) _ _
          (mask_loop-IsMask ks (λ b. m b || c b) end n)
          (λ r h. record {
            union = λ b. (
              (λ x. elim ((h.union b).0 x) [
                | inl y ↦ elim ((or_true (m b) (c b)).0 y) [
                  | inl z ↦ inl z
                  | inr z ↦ inr (inl (c, e, z))
                ]
                | inr y ↦ inr (inr y)
              ]),
              elim [
                | inl y ↦ (h.union b).1 (inl ((or_true (m b) (c b)).1 (inl y)))
                | inr (inl (c', e', t)) ↦
                    (h.union b).1 (inl ((or_true (m b) (c b)).1 (inr (same_class e e' b t))))
                | inr (inr y) ↦ (h.union b).1 (inr y)
              ],
            );
            ends = (
              (λ x. elim (h.ends.0 x) [ inl y ↦ inl y | inr y ↦ inr (inr y) ]),
              elim [
                | inl y ↦ h.ends.1 (inl y)
                | inr (inl y) ↦ absurd (cc)
                | inr (inr y) ↦ h.ends.1 (inr y)
              ],
            );
          }))
    where
      same_class :
          {c' : ByteSet}
          → top_of g f ≡ terminal c
          → top_of g f ≡ terminal c'
          → (b : ℕ) → c' b ≡ true
          → c b ≡ true
      same_class e e' b t = let q = sym e ∙ e' in ground arith

  first_byte :
      (c : ByteSet) (ss : List Sym) (b : ℕ) (w : List ℕ)
      → Matches g (cls c ∷ ss) (b ∷ w)
      → (b < 256) × (c b ≡ true)
  first_byte c ss b w (byte lt t m) = (lt, t)

  not_empty : (c : ByteSet) (ss : List Sym) → ¬ Matches g (cls c ∷ ss) []
  not_empty c ss m = elim m [ ]

  pub Accepts-Starts :
      (ks : List Stack) (b : ℕ) (w : List ℕ)
      → All (IsNormal g) ks
      → Accepts g ks (b ∷ w)
      → (b < 256) × Any (Starts b) ks
  unfolding symbols
  Accepts-Starts [] b w n a = absurd a
  Accepts-Starts ([] ∷ ks) b w n (inl m) = elim m [ ]
  Accepts-Starts ((f ∷ k) ∷ ks) b w n (inl m) =
      let (lt, t) = first_byte n.0.0 _ b w (rw (rest_of-class g f n.0.0 n.0.1) at m) in
      (lt, inl (n.0.0, n.0.1, t))
  Accepts-Starts (k ∷ ks) b w n (inr a) = let (lt, t) = Accepts-Starts ks b w n.1 a in (lt, inr t)

  Accepts-nil : (ks : List Stack) → All (IsNormal g) ks → Accepts g ks [] → Any (λ k. k ≡ []) ks
  unfolding symbols
  Accepts-nil [] n a = absurd a
  Accepts-nil ([] ∷ ks) n (inl m) = inl refl
  Accepts-nil ((f ∷ k) ∷ ks) n (inl m) =
      absurd (not_empty n.0.0 _ (rw (rest_of-class g f n.0.0 n.0.1) at m))
  Accepts-nil (k ∷ ks) n (inr a) = inr (Accepts-nil ks n.1 a)

  nil-Accepts : (ks : List Stack) → Any (λ k. k ≡ []) ks → Accepts g ks []
  unfolding symbols
  nil-Accepts [] a = absurd a
  nil-Accepts (k ∷ ks) (inl e) = inl (rw (e, symbols) Matches.done)
  nil-Accepts (k ∷ ks) (inr a) = inr (nil-Accepts ks a)

  -- What `gr_admissible` reports of a set of stacks. The mask holds the bytes in the classes at the
  -- tops of the stacks, and no others; every byte that a word of the state begins with is one. The
  -- flag says whether the empty word is one of them. The count is that of the bytes of the mask,
  -- each in the list once.
  pub record IsAdmissible (ks : List Stack) (adm : Admissible) : Type 0 where
    pub mask : (b : ℕ) → (adm.mask b ≡ true) ↔ Any (Starts b) ks
    pub begins : (b : ℕ) (w : List ℕ) → Accepts g ks (b ∷ w) → adm.mask b ≡ true
    pub can_end : (adm.can_end ≡ true) ↔ Accepts g ks []
    pub bytes : List ℕ
    pub once : Distinct bytes
    pub listed : (b : ℕ) → Any (λ x. x ≡ b) bytes ↔ ((b < 256) × (adm.mask b ≡ true))
    pub count : adm.count ≡ length bytes

  -- On a valid set of stacks `gr_admissible` returns, and the mask holds the bytes in the classes at
  -- the tops of the stacks and no others, every byte that a word of the state begins with among
  -- them; the flag says whether the empty word is one of the state's words; the count is that of
  -- the bytes of the mask, each in the list once.
  pub admissible-IsAdmissible :
      (ks : List Stack) → IsValid g ks → Returns (IsAdmissible ks) (admissible g ks)
  unfolding admissible
  admissible-IsAdmissible ks v =
      Returns-bind (mask_loop g ks (λ _. false) false) _ _ _
        (mask_loop-IsMask ks (λ _. false) false v.normal)
        (λ r h. record {
          mask = λ b. (
            (λ x. elim ((h.union b).0 x) [ inl y ↦ absurd (cc) | inr y ↦ y ]),
            λ y. (h.union b).1 (inr y),
          );
          begins = λ b w a. (h.union b).1 (inr (Accepts-Starts ks b w v.normal a).1);
          can_end = (
            (λ x. elim (h.ends.0 x) [ inl y ↦ absurd (cc) | inr y ↦ nil-Accepts ks y ]),
            λ a. h.ends.1 (inr (Accepts-nil ks v.normal a)),
          );
          bytes = set_bytes 256 r.0;
          once = set_bytes-Distinct 256 r.0;
          listed = set_bytes-listed 256 r.0;
          count = count_set-length 256 r.0;
        })
