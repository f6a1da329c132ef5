-- ===== src/Eval/Tasks/Contents.antt =====
-- src/eval/task.cpp: what `load_task` promises of a task that it loads.
use gemini_cpp.Base.{
  true, false, [], Option, none, some, is_empty, bind_option, or_value, ◌≡◌, refl, subst,
  Bool-cases, Option-cases, inl, inr,
}
use gemini_cpp.Base.Int.{ℤ, pos, ltb_ℤ, to_i32}
use gemini_cpp.Base.Text.{Bytes, codes}
use gemini_cpp.Error.{Result, ok, err, throws, ◌>>=◌}
use gemini_cpp.Json.{JsonLib}
use gemini_cpp.Wire.{array_at, strings}
use gemini_cpp.Eval.Outcome.{Task, join_path}
use gemini_cpp.Eval.Tasks.{
  load_task, task_of, text_value_or, file_name, with_names, read_sources, prompt_of, timeout_of,
}

module _ {D : Type 0} (L : JsonLib D) (no_string : L.Json → Bytes)
    (read_file : Bytes → Option Bytes) where
  -- A task of a directory: its sources are the files there, its prompt has a byte, and its time is
  -- positive.
  abbrev pub IsTaskOf : Bytes → Task → Type 0
  IsTaskOf dir t =
      (t.dir ≡ dir)
      × (read_file (join_path dir (codes "tests.cpp")) ≡ some t.test_source)
      × (read_file (join_path dir (codes "reference.hpp")) ≡ t.reference_source)
      × (is_empty t.prompt ≡ false)
      × (ltb_ℤ (pos 0) t.timeout_ms ≡ true)

  timeout_positive : (n : Option ℤ) → ltb_ℤ (pos 0) (timeout_of L no_string read_file n) ≡ true
  unfolding timeout_of
  timeout_positive none = refl
  timeout_positive (some n) = elim (Bool-cases (ltb_ℤ (pos 0) (to_i32 n))) [
    | inl e ↦ rw e e
    | inr e ↦ rw e refl
  ]

  read_sources-IsTaskOf :
      (task t : Task)
      → read_sources L no_string read_file task ≡ ok t
      → is_empty task.prompt ≡ false
      → ltb_ℤ (pos 0) task.timeout_ms ≡ true
      → IsTaskOf task.dir t
  unfolding read_sources
  read_sources-IsTaskOf task t h p l =
      elim (Option-cases (read_file (join_path task.dir (codes "tests.cpp")))) [
        | inl e ↦ absurd (cc (rw (e, read_sources) at h))
        | inr (tests, e) ↦
            let full : Task = record task {
              test_source = tests;
              reference_source = read_file (join_path task.dir (codes "reference.hpp"));
            } in
            let same : ok full ≡ ok t = rw (e, read_sources) at h in
            let found : full ≡ t = cc same in subst (IsTaskOf task.dir) found (refl, e, refl, p, l)
      ]

  -- The task before its sources are read.
  abbrev bare : Bytes → L.Json → Bytes → Bytes → Task
  bare dir j id title = record {
    id = id;
    title = title;
    prompt = prompt_of L no_string read_file (L.find j (codes "prompt"));
    tags = strings L (or_value (array_at L j (codes "tags")) []);
    timeout_ms =
        timeout_of L no_string read_file (bind_option (L.find j (codes "timeout_ms")) L.as_int);
    dir = dir;
    test_source = [];
    reference_source = none;
  }

  with_names-IsTaskOf :
      (dir : Bytes) (j : L.Json) (id title : Bytes) (t : Task)
      → with_names L no_string read_file dir j id title ≡ ok t
      → IsTaskOf dir t
  unfolding with_names
  with_names-IsTaskOf dir j id title t h =
      elim (Bool-cases (is_empty (prompt_of L no_string read_file (L.find j (codes "prompt"))))) [
        | inl e ↦ absurd (cc (rw (e, with_names) at h))
        | inr e ↦
            read_sources-IsTaskOf (bare dir j id title) t (rw (e, with_names) at h) e
              (timeout_positive (bind_option (L.find j (codes "timeout_ms")) L.as_int))
      ]

  named-IsTaskOf :
      (dir : Bytes) (j : L.Json) (id : Result Bytes) (title : Bytes → Result Bytes) (t : Task)
      → (do i ← id; n ← title i; with_names L no_string read_file dir j i n) ≡ ok t
      → IsTaskOf dir t
  named-IsTaskOf dir j (ok id) title t h = titled (title id) h
    where
      titled :
          (r : Result Bytes)
          → (do n ← r; with_names L no_string read_file dir j id n) ≡ ok t
          → IsTaskOf dir t
      titled (ok n) k = with_names-IsTaskOf dir j id n t k
      titled (err e) k = absurd (cc k)
      titled (throws w) k = absurd (cc k)
  named-IsTaskOf dir j (err e) title t h = absurd (cc h)
  named-IsTaskOf dir j (throws w) title t h = absurd (cc h)

  pub load_task-IsTaskOf :
      (dir : Bytes) (t : Task) → load_task L no_string read_file dir ≡ ok t → IsTaskOf dir t
  unfolding load_task task_of
  load_task-IsTaskOf dir t h = elim (Option-cases (read_file (join_path dir (codes "task.json")))) [
    | inl e ↦ absurd (cc (rw (e, load_task) at h))
    | inr (text, e) ↦ elim (Option-cases (L.parse text)) [
      | inl n ↦ absurd (cc (rw (e, n, load_task) at h))
      | inr (j, n) ↦ elim (Bool-cases (L.is_object j)) [
        | inl o ↦
            named-IsTaskOf dir j
              (text_value_or L no_string read_file j (codes "id") (file_name dir))
              (λ i. text_value_or L no_string read_file j (codes "title") i) t
              (rw (e, n, o, load_task) at h)
        | inr o ↦ absurd (cc (rw (e, n, o, load_task) at h))
      ]
    ]
  ]
