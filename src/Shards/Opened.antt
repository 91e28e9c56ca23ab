-- ===== src/Shards/Opened.antt =====
-- Indexing a file of c/io/st.h keeps every tensor in its file.
use moty.Base.{
  ℕ, zero, suc, ◌+◌, ◌-◌, ◌*◌, ◌^◌, ◌≡◌, refl, ap, inl, inr, ◌||◌, Option, none, some, List, [],
  ◌∷◌, ◌++◌, length, get_elem?, All, take, ltb, bytes_equal, bytes_equal→≡, ℤ, arith, Bool-cases,
  if_cases, get_elem?-append_self,
}
use moty.Json.Values.{
  Jval, j_null, j_bool, j_num, j_str, j_arr, j_obj, Got, got, past_end, no_rounds,
}
use moty.Shards.Tensor.{StTensor, StShards}
use moty.Shards.Index.{scan, st_find_exact}
use moty.Shards.File.{
  little_endian, fd_from, st_open_fd, Indexed, indexed, failed, unread, index_fields, with_tensors,
  index_root, index_header, index_opened, with_index, st_index_file, st_init_file,
}
use moty.Shards.Placed.{Lies, LiesIn, AllOf, index_fields-AllOf}
use moty.Shards.Counts.{HasFew, index_header-HasFew}
use moty.Shards.Find.{st_find_exact-st_hash_build}

fd_from-get_elem? :
    (ps : List (List ℕ)) (i : ℕ) (path : List ℕ) (fd : ℕ)
    → fd_from ps i path ≡ some fd
    → (j : ℕ) × (fd ≡ i + j) × (get_elem? ps j ≡ some path)
fd_from-get_elem? [] i path fd e = absurd (ground arith)
fd_from-get_elem? (p ∷ ps) i path fd e = elim (Bool-cases (bytes_equal p path)) [
  | inl same ↦
      (0, let x = rw same at e in ground arith, ap (λ q. some q) (bytes_equal→≡ p path same))
  | inr differs ↦
      let later = rw differs at e in
      let (j, at, there) = fd_from-get_elem? ps (suc i) path fd later in
      (suc j, omega (arith, at), there)
]

get_elem?-append_some :
    {A : Type 0}
    → (xs ys : List A) (i : ℕ) (x : A) → get_elem? xs i ≡ some x
    → get_elem? (xs ++ ys) i ≡ some x
get_elem?-append_some [] ys i x e = cc
get_elem?-append_some (y ∷ xs) ys zero x e = e
get_elem?-append_some (y ∷ xs) ys (suc i) x e = get_elem?-append_some xs ys i x e

-- The path is open under the number, and what was open is open as before.
pub record OpenOn (S : StShards) (path : List ℕ) (fd : ℕ) (S' : StShards) : Type 0 where
  pub here : get_elem? S'.paths fd ≡ some path
  pub before : (i : ℕ) (p : List ℕ) → get_elem? S.paths i ≡ some p → get_elem? S'.paths i ≡ some p
  pub tensors : S'.t ≡ S.t

open_case :
    (S : StShards) (path : List ℕ) (o : Option ℕ)
    → fd_from S.paths 0 path ≡ o
    → OpenOn S path (st_open_fd S path).0 (st_open_fd S path).1
open_case S path none e =
    rw (e, st_open_fd)
      (record {
        here = get_elem?-append_self S.paths path;
        before = λ i p at. get_elem?-append_some S.paths (path ∷ []) i p at;
        tensors = refl;
      })
open_case S path (some fd) e =
    let (j, at, there) = fd_from-get_elem? S.paths 0 path fd e in
    let same : j ≡ fd = omega (arith, at) in
    rw (e, st_open_fd) (record { here = rw same at there; before = λ i p at. at; tensors = refl })

module _ (int_of : ℕ → ℤ) (strtoul : List ℕ → ℕ) (strtod : List ℕ → ℕ × ℕ)
    (files : List ℕ → Option (List ℕ)) where
  -- Every tensor lies in the file that its `fd` is open on.
  abbrev pub AllPlaced : StShards → Type 0
  AllPlaced S = All (LiesIn files S.paths) S.t

  abbrev pub AllPlacedIn : Indexed → Type 0
  AllPlacedIn (indexed S) = AllPlaced S
  AllPlacedIn (failed f) = Unit
  AllPlacedIn unread = Unit

  index_root-AllPlacedIn :
      (fd fsz data_start : ℕ) (S : StShards) (r : Got Jval)
      → ((t : StTensor) → t.fd ≡ fd → Lies fsz t → LiesIn files S.paths t)
      → AllPlaced S
      → AllPlacedIn (index_root int_of fd fsz data_start S r)
  index_root-AllPlacedIn fd fsz d S (got (j_obj fs) rest) made h =
      members (index_fields int_of fd fsz d fs S.t)
        (index_fields-AllOf int_of (LiesIn files S.paths) fd fsz d made fs S.t h)
    where
      members :
          (o : Option (List StTensor))
          → AllOf int_of (LiesIn files S.paths) fd fsz d made o
          → AllPlacedIn (with_tensors S o)
      members none h = tt
      members (some ts) h = h
  index_root-AllPlacedIn fd fsz d S (got j_null rest) made h = tt
  index_root-AllPlacedIn fd fsz d S (got (j_bool b) rest) made h = tt
  index_root-AllPlacedIn fd fsz d S (got (j_num n) rest) made h = tt
  index_root-AllPlacedIn fd fsz d S (got (j_str s) rest) made h = tt
  index_root-AllPlacedIn fd fsz d S (got (j_arr ks) rest) made h = tt
  index_root-AllPlacedIn fd fsz d S past_end made h = tt
  index_root-AllPlacedIn fd fsz d S no_rounds made h = tt

  index_header-AllPlacedIn :
      (fd : ℕ) (file : List ℕ) (S : StShards)
      → ((t : StTensor) → t.fd ≡ fd → Lies (length file) t → LiesIn files S.paths t)
      → AllPlaced S
      → AllPlacedIn (index_header int_of strtoul strtod fd file S)
  index_header-AllPlacedIn fd file S made h =
      let hlen = little_endian (take 8 file) in
      if_cases AllPlacedIn (ltb (length file) 8) _ _ (λ e. tt)
        (λ e.
          if_cases AllPlacedIn (ltb (length file - 8) hlen || ltb (512 * 2 ^ 20) hlen) _ _ (λ e. tt)
            (λ e. index_root-AllPlacedIn fd (length file) (8 + hlen) S _ made h))

  still-LiesIn :
      (S S' : StShards) (path : List ℕ) (fd : ℕ)
      → OpenOn S path fd S'
      → (ts : List StTensor) → All (LiesIn files S.paths) ts
      → All (LiesIn files S'.paths) ts
  still-LiesIn S S' path fd opened [] h = tt
  still-LiesIn S S' path fd opened (t ∷ ts) h = (
    record {
      path = h.0.path;
      file = h.0.file;
      is_open = opened.before t.fd h.0.path h.0.is_open;
      is_file = h.0.is_file;
      lies = h.0.lies;
    },
    still-LiesIn S S' path fd opened ts h.1,
  )

  opened-AllPlacedIn :
      (S : StShards) (path : List ℕ) (o : Option (List ℕ))
      → files path ≡ o
      → AllPlaced S
      → AllPlacedIn (index_opened int_of strtoul strtod S path o)
  opened-AllPlacedIn S path none e h = tt
  opened-AllPlacedIn S path (some file) there h =
      let opened = open_case S path _ refl in
      let S' = (st_open_fd S path).1 in
      index_header-AllPlacedIn _ file S'
        (λ t fd lies. record {
          path = path;
          file = file;
          is_open = rw fd opened.here;
          is_file = there;
          lies = lies;
        })
        (rw opened.tensors (still-LiesIn S S' path _ opened S.t h))

  -- If every tensor lies in its file, every tensor does once another file is indexed: its data ends
  -- within the file that its `fd` is open on, or at `2^63` or above, where the sum that is compared
  -- with the size wraps around.
  pub st_index_file-AllPlacedIn :
      (S : StShards) (path : List ℕ)
      → AllPlaced S
      → AllPlacedIn (st_index_file int_of strtoul strtod files S path)
  unfolding st_index_file
  st_index_file-AllPlacedIn S path h = opened-AllPlacedIn S path (files path) refl h

  -- What `st_init_file` leaves, if it leaves a state.
  abbrev pub Served : Indexed → Type 0
  Served (indexed S) =
      AllPlaced S × ((name : List ℕ) → st_find_exact S name ≡ some (scan S.t 0 name))
  Served (failed f) = Unit
  Served unread = Unit

  indexed_case :
      (r : Indexed)
      → AllPlacedIn r
      → HasFew (2 ^ 29) r
      → (r' : Indexed) × (with_index r ≡ some r') × Served r'
  unfolding st_find_exact
  indexed_case (indexed S) h few =
      let (slots, done, finds) = st_find_exact-st_hash_build S few in
      (indexed (record S { hidx = some slots }), rw done refl, (h, finds))
  indexed_case (failed f) h few = (failed f, refl, tt)
  indexed_case unread h few = (unread, refl, tt)

  opened-HasFew :
      (S : StShards) (path : List ℕ) (o : Option (List ℕ))
      → length S.t ≡ 0
      → HasFew (2 ^ 29) (index_opened int_of strtoul strtod S path o)
  opened-HasFew S path none empty = tt
  opened-HasFew S path (some file) empty =
      let opened = open_case S path _ refl in
      let S' = (st_open_fd S path).1 in
      index_header-HasFew int_of strtoul strtod _ file S' (rw opened.tensors empty)

  -- Opening a model of one file ends, with a failure, with a read past the NUL of the header, or with
  -- a state in which every tensor lies in the file, as above, and each lookup finds the first tensor
  -- of that name.
  pub st_init_file-Served :
      (path : List ℕ)
      → (r : Indexed) × (st_init_file int_of strtoul strtod files path ≡ some r) × Served r
  unfolding st_init_file st_index_file
  st_init_file-Served path =
      let nothing : StShards = record { t = []; paths = []; hidx = none } in
      indexed_case _ (st_index_file-AllPlacedIn nothing path tt)
        (opened-HasFew nothing path (files path) refl)
