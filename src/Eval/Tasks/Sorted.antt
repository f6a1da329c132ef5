-- ===== src/Eval/Tasks/Sorted.antt =====
-- src/eval/task.cpp: the order of the loaded tasks.
use mathlib.Core.List.{Permᴰ}
use mathlib.Core.List.Permᴰ
use gemini_cpp.Base.{
  true, false, ◌&&◌, List, [], ◌∷◌, Option, none, ◌≡◌, ◌⊎◌, refl, arith, Bool-cases, inl, inr,
}
use gemini_cpp.Base.Text.{Bytes}
use gemini_cpp.Error.{Result, ok, err, throws, ◌>>=◌, Error}
use gemini_cpp.Json.{JsonLib}
use gemini_cpp.Eval.Outcome.{Task}
use gemini_cpp.Eval.Tasks.{
  Entry, less_bytes, insert_task, sort_tasks, load_each, listed, load_tasks, load_task,
}
use gemini_cpp.Eval.Tasks.Contents.{IsTaskOf, load_task-IsTaskOf}

-- No task stands after one with a greater id.
abbrev Follows : Task → List Task → Type 0
Follows t [] = Unit
Follows t (u ∷ us) = less_bytes u.id t.id ≡ false

abbrev pub IsSorted : List Task → Type 0
IsSorted [] = Unit
IsSorted (t ∷ ts) = Follows t ts × IsSorted ts

less_bytes-asym : (s t : Bytes) → less_bytes s t ≡ true → less_bytes t s ≡ false
unfolding less_bytes
less_bytes-asym [] [] h = refl
less_bytes-asym [] (d ∷ t) h = refl
less_bytes-asym (c ∷ s) [] h = absurd (ground arith)
less_bytes-asym (c ∷ s) (d ∷ t) h = ground (arith, less_bytes-asym s t)

insert_task-Follows :
    (u t : Task) (us : List Task)
    → less_bytes u.id t.id ≡ true
    → Follows u us
    → Follows u (insert_task t us)
unfolding insert_task
insert_task-Follows u t [] h f = less_bytes-asym u.id t.id h
insert_task-Follows u t (v ∷ us) h f = elim (Bool-cases (less_bytes v.id t.id)) [
  | inl e ↦ rw (e, insert_task) f
  | inr e ↦ rw (e, insert_task) (less_bytes-asym u.id t.id h)
]

insert_task-IsSorted : (t : Task) (ts : List Task) → IsSorted ts → IsSorted (insert_task t ts)
unfolding insert_task
insert_task-IsSorted t [] h = (tt, tt)
insert_task-IsSorted t (u ∷ us) (f, h) = elim (Bool-cases (less_bytes u.id t.id)) [
  | inl e ↦ rw (e, insert_task) (insert_task-Follows u t us e f, insert_task-IsSorted t us h)
  | inr e ↦ rw (e, insert_task) (e, (f, h))
]

insert_task-Perm : (t : Task) (ts : List Task) → Permᴰ (t ∷ ts) (insert_task t ts)
unfolding insert_task
insert_task-Perm t [] = Permᴰ.refl (t ∷ [])
insert_task-Perm t (u ∷ us) = elim (Bool-cases (less_bytes u.id t.id)) [
  | inl e ↦
      rw (e, insert_task)
        (Permᴰ.trans (Permᴰ.swap refl refl) (Permᴰ.cons refl (insert_task-Perm t us)))
  | inr e ↦ rw (e, insert_task) (Permᴰ.refl (t ∷ u ∷ us))
]

sort_tasks-IsSorted : (ts : List Task) → IsSorted (sort_tasks ts)
unfolding sort_tasks
sort_tasks-IsSorted [] = tt
sort_tasks-IsSorted (t ∷ ts) = insert_task-IsSorted t (sort_tasks ts) (sort_tasks-IsSorted ts)

sort_tasks-Perm : (ts : List Task) → Permᴰ ts (sort_tasks ts)
unfolding sort_tasks
sort_tasks-Perm [] = Permᴰ.nil
sort_tasks-Perm (t ∷ ts) =
    Permᴰ.trans (Permᴰ.cons refl (sort_tasks-Perm ts)) (insert_task-Perm t (sort_tasks ts))

module _ {D : Type 0} (L : JsonLib D) (no_string : L.Json → Bytes)
    (read_file : Bytes → Option Bytes) where
  -- The tasks of the entries that are directories with a task.json, in their order.
  pub data Loads : List Entry → List Task → Type 0 where
    nothing : Loads [] []
    skipped :
        {e : Entry} {es : List Entry} {ts : List Task}
        → (e.is_directory && e.has_task) ≡ false
        → Loads es ts
        → Loads (e ∷ es) ts
    loaded :
        {e : Entry} {es : List Entry} {t : Task} {ts : List Task}
        → (e.is_directory && e.has_task) ≡ true
        → load_task L no_string read_file e.path ≡ ok t
        → IsTaskOf L no_string read_file e.path t
        → Loads es ts
        → Loads (e ∷ es) (t ∷ ts)

  -- The first of these directories that fails, with its error or exception.
  pub data Fails (r : Result (List Task)) : List Entry → Type 0 where
    with_error :
        {e : Entry} {es : List Entry} (x : Error)
        → (e.is_directory && e.has_task) ≡ true
        → load_task L no_string read_file e.path ≡ err x
        → r ≡ err x
        → Fails r (e ∷ es)
    with_exception :
        {e : Entry} {es : List Entry} (w : Bytes)
        → (e.is_directory && e.has_task) ≡ true
        → load_task L no_string read_file e.path ≡ throws w
        → r ≡ throws w
        → Fails r (e ∷ es)
    after_entry :
        {e : Entry} {es : List Entry}
        → ((e.is_directory && e.has_task) ≡ false)
          ⊎ ((t : Task) × (load_task L no_string read_file e.path ≡ ok t))
        → Fails r es
        → Fails r (e ∷ es)

  abbrev AsRead : List Entry → Result (List Task) → Type 0
  AsRead es (ok us) = Loads es us
  AsRead es (err x) = Fails (err x) es
  AsRead es (throws w) = Fails (throws w) es

  skip-AsRead :
      (e : Entry) (es : List Entry) (rest : Result (List Task))
      → (e.is_directory && e.has_task) ≡ false
      → AsRead es rest
      → AsRead (e ∷ es) rest
  skip-AsRead e es (ok us) q h = skipped q h
  skip-AsRead e es (err x) q h = after_entry (inl q) h
  skip-AsRead e es (throws w) q h = after_entry (inl q) h

  entry-AsRead :
      (e : Entry) (es : List Entry) (r : Result Task) (rest : Result (List Task))
      → (e.is_directory && e.has_task) ≡ true
      → load_task L no_string read_file e.path ≡ r
      → AsRead es rest
      → AsRead (e ∷ es) (do task ← r; tasks ← rest; ok (task ∷ tasks))
  entry-AsRead e es (ok t) (ok us) q l h =
      loaded q l (load_task-IsTaskOf L no_string read_file e.path t l) h
  entry-AsRead e es (ok t) (err x) q l h = after_entry (inr (t, l)) h
  entry-AsRead e es (ok t) (throws w) q l h = after_entry (inr (t, l)) h
  entry-AsRead e es (err x) rest q l h = with_error x q l refl
  entry-AsRead e es (throws w) rest q l h = with_exception w q l refl

  load_each-AsRead : (es : List Entry) → AsRead es (load_each L no_string read_file es)
  unfolding load_each
  load_each-AsRead [] = nothing
  load_each-AsRead (e ∷ es) = elim (Bool-cases (e.is_directory && e.has_task)) [
    | inl q ↦ rw (q, load_each) (entry-AsRead e es _ _ q refl (load_each-AsRead es))
    | inr q ↦ rw (q, load_each) (skip-AsRead e es _ q (load_each-AsRead es))
  ]

  -- What a readable directory gives: all the tasks of its entries, sorted; or the first failure.
  abbrev pub AsLoaded : List Entry → Result (List Task) → Type 0
  AsLoaded es r =
      ((us : List Task) × (ts : List Task) × Loads es us × (r ≡ ok ts) × Permᴰ us ts × IsSorted ts)
      ⊎ Fails r es

  bind-AsLoaded :
      (root : Bytes) (es : List Entry) (tasks : Result (List Task))
      → AsRead es tasks
      → AsLoaded es (tasks >>= (λ ts. listed root none ts))
  unfolding listed
  bind-AsLoaded root es (ok us) h =
      inl (us, sort_tasks us, h, refl, sort_tasks-Perm us, sort_tasks-IsSorted us)
  bind-AsLoaded root es (err x) h = inr h
  bind-AsLoaded root es (throws w) h = inr h

  -- `load_tasks` of a directory that can be listed: the result is the tasks of those entries that are
  -- directories with a task.json, each once and sorted by id in byte order, or the error or exception of the
  -- first of these whose `load_task` fails. A task has the sources that stand in its directory, a prompt that is
  -- not empty, and a positive time.
  pub load_tasks-AsLoaded :
      (root : Bytes) (entries : List Entry)
      → AsLoaded entries (load_tasks L no_string read_file root true (none, entries))
  unfolding load_tasks
  load_tasks-AsLoaded root entries =
      bind-AsLoaded root entries (load_each L no_string read_file entries)
        (load_each-AsRead entries)
