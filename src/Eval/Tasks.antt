-- ===== src/Eval/Tasks.antt =====
-- src/eval/task.cpp: the tasks of a directory. Files are read through a function; the list of the
-- directory's entries, with the message of its error code, is a parameter too.
pub mod Contents
pub mod Sorted
use gemini_cpp.Base.{
  ℕ, Bool, true, false, not, ◌&&◌, ◌==◌, ltb, List, [], ◌∷◌, ◌++◌, Option, none, some,
  if◌then◌else◌, is_empty, reverse, bind_option, or_value,
}
use gemini_cpp.Base.Int.{ℤ, pos, ltb_ℤ, to_i32}
use gemini_cpp.Base.Text.{Bytes, codes}
use gemini_cpp.Error.{Result, ok, err, throws, ◌>>=◌, make_error, config, io}
use gemini_cpp.Json.{JsonLib}
use gemini_cpp.Wire.{array_at, strings}
use gemini_cpp.Eval.Outcome.{Task, join_path}

-- `path::filename`: what follows the last slash.
abbrev until_slash : Bytes → Bytes
until_slash [] = []
until_slash (c ∷ s) = if c == b'/' then [] else c ∷ until_slash s

unfoldable pub file_name : Bytes → Bytes
file_name path = reverse (until_slash (reverse path))

abbrev pub task_error : {T : Type 0} → Bytes → Bytes → Result T
task_error dir what = err (make_error config (dir ++ (codes ": " ++ what)))

-- An entry of the directory: its path, is it a directory, and does it hold a task.json?
pub record Entry : Type 0 where
  pub path : Bytes
  pub is_directory : Bool
  pub has_task : Bool

-- `operator<` on strings.
unfoldable pub less_bytes : Bytes → Bytes → Bool
less_bytes [] [] = false
less_bytes [] (d ∷ t) = true
less_bytes (c ∷ s) [] = false
less_bytes (c ∷ s) (d ∷ t) =
    let rest = less_bytes s t in if ltb c d then true else if ltb d c then false else rest

-- `std::sort` by id; it may order tasks with equal ids in any way.
unfoldable pub insert_task : Task → List Task → List Task
unfolding less_bytes
insert_task t [] = t ∷ []
insert_task t (u ∷ us) =
    let rest = insert_task t us in if less_bytes u.id t.id then u ∷ rest else t ∷ u ∷ us

unfoldable pub sort_tasks : List Task → List Task
unfolding insert_task
sort_tasks [] = []
sort_tasks (t ∷ ts) = insert_task t (sort_tasks ts)

unfoldable pub listed : Bytes → Option Bytes → List Task → Result (List Task)
unfolding sort_tasks
listed root (some message) tasks =
    err (make_error io (codes "cannot list " ++ (root ++ (codes ": " ++ message))))
listed root none tasks = ok (sort_tasks tasks)

module _ {D : Type 0} (L : JsonLib D)
    -- the `what()` of the exception for a member that is no string
    (no_string : L.Json → Bytes) (read_file : Bytes → Option Bytes) where
  open L use {Json, find, is_object, as_string, as_int, as_array}

  -- `j.value(key, fallback)` of a string.
  abbrev pub text_value_or : Json → Bytes → Bytes → Result Bytes
  text_value_or j key fallback = elim (find j key) [
    | none ↦ ok fallback
    | some v ↦ elim (as_string v) [ some s ↦ ok s | none ↦ throws (no_string v) ]
  ]

  abbrev lines_of : List Json → Bytes
  lines_of [] = []
  lines_of (j ∷ js) = elim (as_string j) [
    | none ↦ lines_of js
    | some s ↦ (s ++ b'\n' ∷ []) ++ lines_of js
  ]

  -- The prompt: a string, or an array of lines.
  unfoldable pub prompt_of : Option Json → Bytes
  prompt_of none = []
  prompt_of (some p) = elim (as_string p) [
    | some s ↦ s
    | none ↦ elim (as_array p) [ some js ↦ lines_of js | none ↦ [] ]
  ]

  -- A positive `timeout_ms`, or ten seconds.
  unfoldable pub timeout_of : Option ℤ → ℤ
  timeout_of none = pos 10000
  timeout_of (some n) = if ltb_ℤ (pos 0) (to_i32 n) then to_i32 n else pos 10000

  unfoldable pub read_sources : Task → Result Task
  unfolding join_path
  read_sources task = elim (read_file (join_path task.dir (codes "tests.cpp"))) [
    | none ↦ task_error task.dir (codes "missing tests.cpp")
    | some tests ↦ ok (record task {
      test_source = tests;
      reference_source = read_file (join_path task.dir (codes "reference.hpp"));
    })
  ]

  -- The rest of `load_task` once the id and the title are known.
  unfoldable pub with_names : Bytes → Json → Bytes → Bytes → Result Task
  unfolding prompt_of timeout_of read_sources
  with_names dir j id title =
      let prompt = prompt_of (find j (codes "prompt")) in
      if is_empty prompt
      then task_error dir (codes "task.json has no prompt")
      else read_sources (record {
        id = id;
        title = title;
        prompt = prompt;
        tags = strings L (or_value (array_at L j (codes "tags")) []);
        timeout_ms = timeout_of (bind_option (find j (codes "timeout_ms")) as_int);
        dir = dir;
        test_source = [];
        reference_source = none;
      })

  unfoldable pub task_of : Bytes → Json → Result Task
  unfolding with_names file_name
  task_of dir j = do
    id ← text_value_or j (codes "id") (file_name dir)
    title ← text_value_or j (codes "title") id
    with_names dir j id title

  unfoldable pub load_task : Bytes → Result Task
  unfolding task_of join_path
  load_task dir = elim (read_file (join_path dir (codes "task.json"))) [
    | none ↦ task_error dir (codes "cannot read task.json")
    | some manifest ↦ elim (L.parse manifest) [
      | none ↦ task_error dir (codes "task.json is not a JSON object")
      | some j ↦
          if not (is_object j)
          then task_error dir (codes "task.json is not a JSON object")
          else task_of dir j
    ]
  ]

  -- The loop over the entries.
  unfoldable pub load_each : List Entry → Result (List Task)
  unfolding load_task
  load_each [] = ok []
  load_each (e ∷ es) =
      let rest = load_each es in
      if not (e.is_directory && e.has_task)
      then rest
      else do task ← load_task e.path; tasks ← rest; ok (task ∷ tasks)

  -- `load_tasks`: the root may be no directory.
  unfoldable pub load_tasks : Bytes → Bool → Option Bytes × List Entry → Result (List Task)
  unfolding load_each listed
  load_tasks root false entries =
      err (make_error config (codes "task directory not found: " ++ root))
  load_tasks root true (problem, entries) = do tasks ← load_each entries; listed root problem tasks
