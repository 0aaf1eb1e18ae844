-- ===== src/Distance/Rows.antt =====
-- The rolling rows hold the recursive distance.
use mathlib.Core.List.{reverse, reverse-cons, append_assoc, append-nil}
use native.Mathlib.Numerals.{sub-one, add-one}
use go_bpfman.Prelude.{
  ℕ, suc, ◌≡◌, refl, ap, List, [], ◌∷◌, ◌++◌, some, length, get_elem?, replicate, arith,
  length-append, length-replicate,
}
use go_bpfman.Distance.{store, number_row, fill_row, fill_rows, distance_of_runes}
use go_bpfman.Distance.Scripts.{edit, edit-reverse}

-- Reads and writes at the end of a known front.
module _ (a x : ℕ) (rest : List ℕ) where
  get_elem?-append : (xs : List ℕ) {k : ℕ} → length xs ≡ k → get_elem? (xs ++ x ∷ rest) k ≡ some x
  get_elem?-append [] e = rw (← e) refl
  get_elem?-append (y ∷ xs) e = rw (← e) (get_elem?-append xs refl)

  get_elem?_after :
      (xs : List ℕ) {k : ℕ} → length xs ≡ k → get_elem? (xs ++ a ∷ x ∷ rest) (suc k) ≡ some x
  get_elem?_after [] e = rw (← e) refl
  get_elem?_after (y ∷ xs) e = rw (← e) (get_elem?_after xs refl)

  store-append :
      (v : ℕ) (xs : List ℕ) {k : ℕ}
      → length xs ≡ k
      → store (xs ++ x ∷ rest) k v ≡ some (xs ++ v ∷ rest)
  unfolding store
  store-append v [] e = rw (← e) refl
  store-append v (y ∷ xs) e = rw (← e) (rw (store-append v xs refl) refl)

  store_after :
      (v : ℕ) (xs : List ℕ) {k : ℕ}
      → length xs ≡ k
      → store (xs ++ a ∷ x ∷ rest) (suc k) v ≡ some (xs ++ a ∷ v ∷ rest)
  unfolding store
  store_after v [] e = rw (← e) refl
  store_after v (y ∷ xs) e = rw (← e) (rw (store_after v xs refl) refl)

length-snoc : (xs : List ℕ) (x : ℕ) {k : ℕ} → length xs ≡ k → length (xs ++ x ∷ []) ≡ suc k
length-snoc xs x e = omega (arith, length-append xs (x ∷ []))

-- The distances of `p` to `q` and to each longer prefix, where `p` and `q` are prefixes read from
-- their ends, and `rest` follows `q`.
more : List ℕ → List ℕ → List ℕ → List ℕ
more p q [] = []
more p q (y ∷ rest) = edit p (y ∷ q) ∷ more p (y ∷ q) rest

abbrev row : List ℕ → List ℕ → List ℕ → List ℕ
row p q rest = edit p q ∷ more p q rest

length-more : (p q rest : List ℕ) → length (more p q rest) ≡ length rest
unfolding more
length-more p q [] = refl
length-more p q (y ∷ rest) = ap suc (length-more p (y ∷ q) rest)

get_elem?-row :
    (p q rest : List ℕ) → get_elem? (row p q rest) (length rest) ≡ some (edit p (reverse rest ++ q))
unfolding more
get_elem?-row p q [] = refl
get_elem?-row p q (y ∷ rest) = rw (reverse-cons, append_assoc) (get_elem?-row p (y ∷ q) rest)

number_row_lem :
    (rest q done scratch : List ℕ)
    → length done ≡ length q
    → length scratch ≡ suc (length rest)
    → number_row (suc (length rest)) (length q) (done ++ scratch) ≡ some (done ++ row [] q rest)
unfolding number_row more edit
number_row_lem rest q done [] e l = absurd (omega arith)
number_row_lem [] q done (z ∷ []) e l = rw (store-append 0 z [] (length q) done e) refl
number_row_lem [] q done (z ∷ w ∷ scratch) e l = absurd (omega arith)
number_row_lem (y ∷ rest) q done (z ∷ scratch) e l =
    let first = done ++ length q ∷ [] in
    let ih =
      number_row_lem rest (y ∷ q) first scratch (length-snoc done (length q) e) (omega arith) in
    rw (store-append 0 z scratch (length q) done e) (
      rw
        (
          append_assoc done (length q ∷ []) scratch,
          append_assoc done (length q ∷ []) (row [] (y ∷ q) rest),
        )
        at ih)

fill_row_lem :
    (x : ℕ) (p q rest before done scratch : List ℕ) {k : ℕ}
    → length before ≡ k
    → length done ≡ k
    → length scratch ≡ length rest
    → fill_row x (before ++ row p q rest) rest (suc k) (done ++ edit (x ∷ p) q ∷ scratch)
      ≡ some (done ++ row (x ∷ p) q rest)
unfolding fill_row more edit
fill_row_lem x p q [] before done [] e f l = refl
fill_row_lem x p q [] before done (z ∷ scratch) e f l = absurd (omega arith)
fill_row_lem x p q (y ∷ rest) before done [] e f l = absurd (omega arith)
fill_row_lem x p q (y ∷ rest) before done (z ∷ scratch) {k} e f l =
    let front = before ++ edit p q ∷ [] in
    let first = done ++ edit (x ∷ p) q ∷ [] in
    let ih =
      fill_row_lem x p (y ∷ q) rest front first scratch (length-snoc before (edit p q) e)
        (length-snoc done (edit (x ∷ p) q) f) (omega arith) in
    rw
      (
        sub-one,
        get_elem?_after (edit p q) (edit p (y ∷ q)) (more p (y ∷ q) rest) before e,
        get_elem?-append 0 (edit (x ∷ p) q) (z ∷ scratch) done f,
        get_elem?-append 0 (edit p q) (more p q (y ∷ rest)) before e,
        store_after (edit (x ∷ p) q) z scratch (edit (x ∷ p) (y ∷ q)) done f,
      )
      (rw
        (
          append_assoc before (edit p q ∷ []) (row p (y ∷ q) rest),
          append_assoc done (edit (x ∷ p) q ∷ []) (edit (x ∷ p) (y ∷ q) ∷ scratch),
          append_assoc done (edit (x ∷ p) q ∷ []) (row (x ∷ p) (y ∷ q) rest),
        )
        at ih)

-- `prev` is a whole row, and `curr` as wide.
fill_rows_lem :
    (ar br p curr : List ℕ)
    → length curr ≡ suc (length br)
    → fill_rows ar br (suc (length p)) (row p [] br) curr ≡ some (row (reverse ar ++ p) [] br)
unfolding fill_rows store edit more
fill_rows_lem ar br p [] l = absurd (omega arith)
fill_rows_lem [] br p (z ∷ curr) l = refl
fill_rows_lem (x ∷ ar) br p (z ∷ curr) l =
    rw
      (
        fill_row_lem x p [] br [] [] curr refl refl (omega arith),
        reverse-cons,
        append_assoc (reverse ar) (x ∷ []) p,
      )
      (fill_rows_lem ar br (x ∷ p) (row p [] br) (ap suc (length-more p [] br)))

pub distance_of_runes-edit : (a b : List ℕ) → distance_of_runes a b ≡ some (edit a b)
unfolding distance_of_runes edit
distance_of_runes-edit [] b = refl
distance_of_runes-edit (x ∷ a) [] = refl
distance_of_runes-edit (x ∷ a) (y ∷ b) = rw (add-one) (
    rw
      (
        number_row_lem (y ∷ b) [] [] (replicate (suc (length (y ∷ b))) 0) refl
            (length-replicate (suc (length (y ∷ b))) 0),
        fill_rows_lem (x ∷ a) (y ∷ b) [] (replicate (suc (length (y ∷ b))) 0)
            (length-replicate (suc (length (y ∷ b))) 0),
        get_elem?-row (reverse (x ∷ a) ++ []) [] (y ∷ b),
        append-nil,
        append-nil,
        edit-reverse (x ∷ a) (y ∷ b),
      )
      refl)
