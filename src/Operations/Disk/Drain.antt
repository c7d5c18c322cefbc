-- ===== src/Operations/Disk/Drain.antt =====
-- The drain at shutdown: it ends, and nothing that was marked is lost.
use my_no_sql_server_grpc.Base.{
  ℕ, zero, suc, ◌+◌, ◌≤◌, ◌<◌, ◌≡◌, sym, ◌∙◌, refl, arith, true, false, List, [], ◌∷◌, ◌⊎◌, inl,
  inr, none, All, Option-cases,
}
use my_no_sql_server_grpc.Persist.Markers.{PersistTask, PersistMarkersInner, get_task}
use my_no_sql_server_grpc.Persist.Markers.Mark.{due_moment}
use my_no_sql_server_grpc.Persist.Markers.Take.{IsValid, get_task-none}
use my_no_sql_server_grpc.Persist.Markers.Size.{owed, get_task-owed, get_task_drain}
use my_no_sql_server_grpc.Operations.Core.{DbTableOps}
use my_no_sql_server_grpc.Operations.Disk.{DbNamespace, persist_namespace, persist, drain}
use my_no_sql_server_grpc.Operations.Disk.Saved.{
  on_disk, to_keep, pair_of, persist_namespace-kept, persist_namespace-owed,
}

-- A queue that owes nothing has nothing marked.
owed-none :
    (m : PersistMarkersInner)
    → IsValid m
    → owed m ≡ 0
    → (task : PersistTask) → due_moment m task ≡ none
owed-none m v h task = elim (Option-cases (get_task none m).0) [
  | inl nothing ↦
      let (same, idle) = get_task-none none m (get_task none m).1 (pair_of nothing) in
      elim (Option-cases (due_moment m task)) [
        | inl unmarked ↦ unmarked
        | inr (moment, marked) ↦ absurd (ground (arith, idle task))
      ]
  | inr (t, taken) ↦
      let (valid, less) = get_task-owed none m (get_task none m).1 t v (pair_of taken) in
      absurd (omega (arith, less))
]

owed_cases : (n : ℕ) → (n ≡ 0) ⊎ (0 < n)
owed_cases zero = inl refl
owed_cases (suc n) = inr (omega arith)

module _ {T R A S Act : Type 0} (db : DbTableOps T R A S Act) where
  abbrev pub total_owed : List (DbNamespace T R A) → ℕ
  total_owed [] = 0
  total_owed (n ∷ ns) = owed n.persist_markers + total_owed ns

  busy_namespace :
      (clock : ℕ) (n : DbNamespace T R A)
      → (persist_namespace db none clock n).0 ≡ false
      → owed n.persist_markers ≡ 0
  unfolding persist_namespace
  busy_namespace clock n h = elim (owed_cases (owed n.persist_markers)) [
    | inl idle ↦ idle
    | inr busy ↦ let (task, m', e) = get_task_drain n.persist_markers busy in absurd (ground arith)
  ]

  -- The namespaces stay those that they are, and what their disks are to keep does not change.
  abbrev pub AllKept : List (DbNamespace T R A) → List (DbNamespace T R A) → Type 0
  AllKept [] [] = Unit {0}
  AllKept [] (m ∷ ms) = ⊥
  AllKept (n ∷ ns) [] = ⊥
  AllKept (n ∷ ns) (m ∷ ms) =
      ((task : PersistTask) → to_keep db m task ≡ to_keep db n task) × AllKept ns ms

  AllKept-refl : (ns : List (DbNamespace T R A)) → AllKept ns ns
  AllKept-refl [] = tt
  AllKept-refl (n ∷ ns) = (λ task. refl, AllKept-refl ns)

  AllKept-trans :
      (ns ms ks : List (DbNamespace T R A)) → AllKept ns ms → AllKept ms ks → AllKept ns ks
  AllKept-trans [] [] ks h k = k
  AllKept-trans [] (m ∷ ms) ks h k = elim h [ ]
  AllKept-trans (n ∷ ns) [] ks h k = elim h [ ]
  AllKept-trans (n ∷ ns) (m ∷ ms) [] h k = elim k [ ]
  AllKept-trans (n ∷ ns) (m ∷ ms) (l ∷ ks) h k =
      (λ task. k.0 task ∙ h.0 task, AllKept-trans ns ms ks h.1 k.1)

  abbrev pub AllValid : List (DbNamespace T R A) → Type 0
  AllValid ns = All (λ (n : DbNamespace T R A). IsValid n.persist_markers) ns

  -- One pass of `persist` at shutdown: it writes something as long as anything is owed, and less is owed after it.
  persist-progress :
      (clock : ℕ) (ns : List (DbNamespace T R A))
      → AllValid ns
      → AllValid (persist db none clock ns).1
        × AllKept ns (persist db none clock ns).1
        × (((persist db none clock ns).0 ≡ false)
              × (total_owed ns ≡ 0)
              × (total_owed (persist db none clock ns).1 ≡ 0)
            ⊎ ((persist db none clock ns).0 ≡ true)
              × (total_owed (persist db none clock ns).1 < total_owed ns))
  unfolding persist
  persist-progress clock [] h = (tt, tt, inl (refl, refl, refl))
  persist-progress clock (n ∷ ns) h =
      let (valid, kept) = persist_namespace-kept db none clock n h.0 in
      let one = persist_namespace-owed db none clock n h.0 in
      let (others, others_kept, rest) = persist-progress clock ns h.1 in
      (
        (valid, others),
        (kept, others_kept),
        elim one [
          | inl (idle, same) ↦
              let e = busy_namespace clock n idle in
              elim rest [
                | inl (off, none_before, none_after) ↦ inl (ground arith, omega arith, omega arith)
                | inr (on, fewer) ↦ inr (ground arith, omega arith)
              ]
          | inr (busy, less) ↦ elim rest [
            | inl (off, none_before, none_after) ↦ inr (ground arith, omega arith)
            | inr (on, fewer) ↦ inr (ground arith, omega arith)
          ]
        ],
      )

  -- Every namespace has on disk what it was to keep.
  abbrev pub AllOnDisk : List (DbNamespace T R A) → List (DbNamespace T R A) → Type 0
  AllOnDisk [] [] = Unit {0}
  AllOnDisk [] (m ∷ ms) = ⊥
  AllOnDisk (n ∷ ns) [] = ⊥
  AllOnDisk (n ∷ ns) (m ∷ ms) =
      ((task : PersistTask) → on_disk m.persist_repo task ≡ to_keep db n task) × AllOnDisk ns ms

  all-AllOnDisk :
      (ns ms : List (DbNamespace T R A))
      → AllKept ns ms
      → AllValid ms
      → total_owed ms ≡ 0
      → AllOnDisk ns ms
  all-AllOnDisk [] [] h v e = tt
  all-AllOnDisk [] (m ∷ ms) h v e = elim h [ ]
  all-AllOnDisk (n ∷ ns) [] h v e = elim h [ ]
  all-AllOnDisk (n ∷ ns) (m ∷ ms) h v e = (
    λ task.
        let unmarked = owed-none m.persist_markers v.0 (omega arith) task in
        sym (rw (to_keep, unmarked) refl) ∙ h.0 task,
    all-AllOnDisk ns ms h.1 v.1 (omega arith),
  )

  drained :
      (fuel clock : ℕ) (start ns : List (DbNamespace T R A))
      → AllKept start ns
      → AllValid ns
      → total_owed ns ≤ fuel
      → (total_owed (drain db fuel clock ns).1 ≡ 0)
        × AllOnDisk start (drain db fuel clock ns).1
        × ((drain db fuel clock ns).0 ≤ total_owed ns)
  unfolding drain
  drained zero clock start ns kept h k =
      (omega arith, all-AllOnDisk start ns kept h (omega arith), omega arith)
  drained (suc fuel) clock start ns kept h k =
      let (valid, step, progress) = persist-progress clock ns h in
      let kept' = AllKept-trans start ns (persist db none clock ns).1 kept step in
      elim progress [
        | inl (idle, before, after) ↦
            rw (drain, idle)
              (
                after,
                all-AllOnDisk start (persist db none clock ns).1 kept' valid after,
                omega arith,
              )
        | inr (busy, less) ↦
            let (owes, on, counted) =
              drained fuel clock start (persist db none clock ns).1 kept' valid (omega arith) in
            rw (drain, busy) (owes, on, omega arith)
      ]

  -- If the queues are well formed and the fuel is enough for the marks: the loop at shutdown ends after at most as many passes as
  -- there are marks, with every queue empty, and each namespace, one by one, has on disk exactly
  -- what memory holds of everything that was marked at the shutdown, and what was on disk then of
  -- everything else.
  pub drain-AllOnDisk :
      (fuel clock : ℕ) (ns : List (DbNamespace T R A))
      → AllValid ns
      → total_owed ns ≤ fuel
      → (total_owed (drain db fuel clock ns).1 ≡ 0)
        × AllOnDisk ns (drain db fuel clock ns).1
        × ((drain db fuel clock ns).0 ≤ total_owed ns)
  drain-AllOnDisk fuel clock ns h k = drained fuel clock ns ns (AllKept-refl ns) h k
