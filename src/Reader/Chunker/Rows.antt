-- ===== src/Reader/Chunker/Rows.antt =====
-- `split_rows`: nothing is lost or moved, and every chunk is bounded.
use my_no_sql_server_grpc.Base.{
  ℕ, ◌+◌, ◌≤◌, ◌<◌, ◌≡◌, refl, sym, ap, ◌∙◌, arith, ◌||◌, List, [], ◌∷◌, ◌++◌, ◌⊎◌, inl, inr,
  length, concat, All, leb, append_assoc, append-nil, length-append, concat-append, All-append,
  Bool-cases,
}
use my_no_sql_server_grpc.Reader.Chunker.{
  max_rows_per_chunk, max_chunk_size, Splitting, split_step, split_loop, push_last, split_rows,
}

-- `concat` of what `push_last` gives.
pub concat-push_last {ℓ} :
    {A : Type ℓ} (result : List (List A)) (chunk : List A)
    → concat (push_last result chunk) ≡ concat result ++ chunk
unfolding push_last
concat-push_last result [] = sym (append-nil (concat result))
concat-push_last result (x ∷ chunk) =
    concat-append result ((x ∷ chunk) ∷ []) ∙ ap (λ t. concat result ++ t) (append-nil (x ∷ chunk))

ends_with {ℓ} :
    {A : Type ℓ} (x : A) (xs : List A)
    → (front : List A) × (last : A) × (x ∷ xs ≡ front ++ (last ∷ []))
ends_with x [] = ([], x, refl)
ends_with x (y ∷ ys) =
    let (front, last, whole) = ends_with y ys in (x ∷ front, last, ap (◌∷◌ x) whole)

abbrev pub all_but_last {ℓ} : {A : Type ℓ} → List A → List A
all_but_last [] = []
all_but_last (x ∷ []) = []
all_but_last (x ∷ y ∷ ys) = x ∷ all_but_last (y ∷ ys)

all_but_last-All {ℓ κ} :
    {A : Type ℓ} (P : A → Type κ) (xs : List A) → All P xs → All P (all_but_last xs)
all_but_last-All P [] h = tt
all_but_last-All P (x ∷ []) h = tt
all_but_last-All P (x ∷ y ∷ ys) h = (h.0, all_but_last-All P (y ∷ ys) h.1)

all_but_last-append {ℓ κ} :
    {A : Type ℓ} (P : A → Type κ) (xs : List A) (x : A)
    → All P xs
    → All P (all_but_last (xs ++ (x ∷ [])))
all_but_last-append P [] x h = tt
all_but_last-append P (y ∷ []) x h = h
all_but_last-append P (y ∷ z ∷ zs) x h = (h.0, all_but_last-append P (z ∷ zs) x h.1)

module _ {R : Type 0} (size : R → ℕ) where
  abbrev pub total_size : List R → ℕ
  total_size [] = 0
  total_size (r ∷ rs) = size r + total_size rs

  pub total_size-append : (xs ys : List R) → total_size (xs ++ ys) ≡ total_size xs + total_size ys
  total_size-append [] ys = omega arith
  total_size-append (x ∷ xs) ys = omega (arith, total_size-append xs ys)

  -- A chunk is cut as soon as it reaches a limit: without its last row it is below both.
  pub record IsChunk (chunk : List R) : Type 0 where
    pub front : List R
    pub last : R
    pub whole : chunk ≡ front ++ (last ∷ [])
    pub rows_below : length front < max_rows_per_chunk
    pub size_below : total_size front < max_chunk_size

  -- And every chunk but the last reached one.
  abbrev pub IsFull : List R → Type 0
  IsFull chunk = (max_rows_per_chunk ≤ length chunk) ⊎ (max_chunk_size ≤ total_size chunk)

  record IsRunning (seen : List R) (s : Splitting size) : Type 0 where
    kept : concat s.result ++ s.chunk ≡ seen
    chunks : All IsChunk s.result
    full : All IsFull s.result
    measured : s.chunk_size ≡ total_size s.chunk
    rows_open : length s.chunk < max_rows_per_chunk
    size_open : s.chunk_size < max_chunk_size

  split_step-IsRunning :
      (seen : List R) (r : R) (s : Splitting size)
      → IsRunning seen s
      → IsRunning (seen ++ (r ∷ [])) (split_step size s r)
  unfolding split_step
  split_step-IsRunning seen r s h =
      let chunk = s.chunk ++ (r ∷ []) in
      let kept : concat s.result ++ chunk ≡ seen ++ (r ∷ []) =
        sym (append_assoc (concat s.result) s.chunk (r ∷ []))
        ∙ ap (λ (t : List R). t ++ (r ∷ [])) h.kept in
      let sized = total_size-append s.chunk (r ∷ []) in
      elim (Bool-cases
        (leb max_rows_per_chunk (length chunk) || leb max_chunk_size (s.chunk_size + size r))) [
          | inl cut ↦
              rw (cut, split_step)
                (record {
                  kept =
                      append-nil _
                      ∙ concat-append s.result (chunk ∷ [])
                      ∙ ap (λ (t : List R). concat s.result ++ t) (append-nil chunk)
                      ∙ kept;
                  chunks = All-append IsChunk s.result (chunk ∷ []) h.chunks (
                    record {
                      front = s.chunk;
                      last = r;
                      whole = refl;
                      rows_below = h.rows_open;
                      size_below = ground arith;
                    },
                    tt,
                  );
                  full = All-append IsFull s.result (chunk ∷ []) h.full (ground arith, tt);
                  measured = refl;
                  rows_open = omega arith;
                  size_open = omega arith;
                })
          | inr more ↦
              rw (more, split_step)
                (record {
                  kept = kept;
                  chunks = h.chunks;
                  full = h.full;
                  measured = ground arith;
                  rows_open = ground arith;
                  size_open = ground arith;
                })
        ]

  split_loop-IsRunning :
      (seen rows : List R) (s : Splitting size)
      → IsRunning seen s
      → IsRunning (seen ++ rows) (split_loop size s rows)
  unfolding split_loop
  split_loop-IsRunning seen [] s h = rw (append-nil seen) h
  split_loop-IsRunning seen (r ∷ rows) s h = rw (← append_assoc seen (r ∷ []) rows) (
      split_loop-IsRunning (seen ++ (r ∷ [])) rows (split_step size s r)
        (split_step-IsRunning seen r s h))

  small-IsChunk :
      (r : R) (rows : List R)
      → length (r ∷ rows) < max_rows_per_chunk
      → total_size (r ∷ rows) < max_chunk_size
      → IsChunk (r ∷ rows)
  small-IsChunk r rows h k =
      let (front, last, whole) = ends_with r rows in
      let counted : length (r ∷ rows) ≡ length front + 1 =
        ap length whole ∙ length-append front (last ∷ []) in
      let sized : total_size (r ∷ rows) ≡ total_size front + total_size (last ∷ []) =
        ap total_size whole ∙ total_size-append front (last ∷ []) in
      record {
        front = front;
        last = last;
        whole = whole;
        rows_below = omega arith;
        size_below = omega arith;
      }

  -- What `split_rows` promises of its chunks.
  pub record IsSplit (rows : List R) (chunks : List (List R)) : Type 0 where
    pub kept : concat chunks ≡ rows
    pub bounded : All IsChunk chunks
    pub full : All IsFull (all_but_last chunks)

  push_last-IsSplit :
      (rows : List R) (result : List (List R)) (chunk : List R) (chunk_size : ℕ)
      → IsRunning rows (record { result = result; chunk = chunk; chunk_size = chunk_size })
      → IsSplit rows (push_last result chunk)
  unfolding push_last
  push_last-IsSplit rows result [] chunk_size h = record {
    kept = concat-push_last result [] ∙ h.kept;
    bounded = h.chunks;
    full = all_but_last-All IsFull result h.full;
  }
  push_last-IsSplit rows result (r ∷ chunk) chunk_size h = record {
    kept = concat-push_last result (r ∷ chunk) ∙ h.kept;
    bounded =
        All-append IsChunk result ((r ∷ chunk) ∷ []) h.chunks
          (small-IsChunk r chunk h.rows_open (ground (arith, h.measured, h.size_open)), tt);
    full = all_but_last-append IsFull result (r ∷ chunk) h.full;
  }

  -- `split_rows` keeps every row in its order; a chunk is below both limits until its last row; and every
  -- chunk but the last has reached one of them.
  pub split_rows-IsSplit : (rows : List R) → IsSplit rows (split_rows size rows)
  unfolding split_rows
  split_rows-IsSplit rows =
      let start : Splitting size = record { result = []; chunk = []; chunk_size = 0 } in
      let s = split_loop size start rows in
      push_last-IsSplit rows s.result s.chunk s.chunk_size (
        split_loop-IsRunning [] rows start (record {
          kept = refl;
          chunks = tt;
          full = tt;
          measured = refl;
          rows_open = omega arith;
          size_open = omega arith;
        }))
