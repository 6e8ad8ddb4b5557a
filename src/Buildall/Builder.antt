-- ===== src/Buildall/Builder.antt =====
-- `_GraphBuilder` of buildall.py: the two queues, the threads that build and the main thread. Queues hold
-- packages, of which the threads read what does not change; the sets `unbuilt_host_dependencies`, which
-- the main thread changes, are kept apart, by package. `received` is the history of what the main thread
-- took from `built_queue`, which only theorems read. Threads are not numbered and the display is left out.
pub mod Invariant
pub mod Threads
pub mod Start
pub mod Receive
pub mod Laws
use pyodide.Base.{
  ℕ, zero, suc, ◌+◌, Text, codes, Bool, true, false, List, [], ◌∷◌, ◌++◌, Option, none, some, elem,
  length, ltb, eqb, ◌==◌, ◌&&◌, ◌||◌, text_eq, if◌then◌else◌, Result, ok, err, Exception, ◌>>=◌,
  ◌>>◌, ◌≡◌, not,
}
use pyodide.Base.Set.{discard, difference}
use pyodide.Base.Dict.{Dict, lookup, put, keys}
use pyodide.Buildall.Package.{
  Package, PackageMap, MetaConfig, package_lt, is_rust_package, get_item,
}

abbrev pub Job : Type 0
Job = ℕ × Package

pub record Builder : Type 0 where
  pub unbuilt : Dict Text (List Text)
  pub build_queue : List Job
  -- Taken by a thread that has put no result yet.
  pub building : List Package
  -- The result is put, the thread has yet to leave `_queue_index`.
  pub leaving : List Package
  pub built_queue : List (Package × Option Exception)
  pub building_rust_pkg : Bool
  pub queue_idx : ℕ
  pub indices : Dict Text ℕ
  pub num_built : ℕ
  pub received : List Package

unfoldable pub job_priority : Package → ℕ
job_priority pkg = if pkg.name == codes "numpy" then 0 else 1

-- self.build_queue.put((job_priority(pkg), pkg)): the list is in no order, `Step.take` takes a smallest job.
unfoldable pub put_job : Package → Builder → Builder
put_job pkg s = record s { build_queue = (job_priority pkg, pkg) ∷ s.build_queue }

-- The comparison of the priority queue's entries.
unfoldable pub job_lt : Job → Job → Bool
job_lt (m, p) (n, q) = ltb m n || (eqb m n && package_lt p q)

-- A thread has taken `pkg` from the queue: it enters `_queue_index`, or puts the package back.
unfoldable pub enter : Package → Builder → Builder
unfolding put_job
enter pkg s = if is_rust_package pkg.meta && s.building_rust_pkg then put_job pkg s else record s {
  building = pkg ∷ s.building;
  building_rust_pkg = is_rust_package pkg.meta || s.building_rust_pkg;
  queue_idx = suc s.queue_idx;
  indices = put pkg.name s.queue_idx s.indices;
}

-- self.built_queue.put((pkg, res)): the queue is first in, first out.
unfoldable pub report : Package → Option Exception → Builder → Builder
report pkg res s = record s {
  leaving = pkg ∷ s.leaving;
  built_queue = s.built_queue ++ (pkg, res) ∷ [];
}

-- The end of `_queue_index`.
unfoldable pub leave : Package → Builder → Builder
leave pkg s = if is_rust_package pkg.meta then record s { building_rust_pkg = false } else s

-- dependent.unbuilt_host_dependencies.remove(name)
unfoldable pub remove_dependency : Text → List Text → Result (List Text)
remove_dependency name deps =
    if elem name deps then ok (discard name deps) else err (Exception.key_error name)

abbrev pub is_empty : List Text → Bool
is_empty [] = true
is_empty (a ∷ l) = false

module _ (pkg_map : PackageMap) where
  -- The loop over the dependents of a package that is built.
  unfoldable pub free_dependents : Text → List Text → Builder → Result Builder
  unfolding put_job remove_dependency
  free_dependents name [] s = ok s
  free_dependents name (other ∷ others) s = do
    dependent ← get_item other pkg_map
    deps ← get_item other s.unbuilt
    left ← remove_dependency name deps
    let s' = record s { unbuilt = put other left s.unbuilt }
    free_dependents name others (if is_empty left then put_job dependent s' else s')

  -- The main thread on one entry of the queue.
  unfoldable pub receive : Package → Option Exception → Builder → Result Builder
  unfolding free_dependents
  receive pkg (some raised) s = err raised
  receive pkg none s =
      free_dependents pkg.name pkg.host_dependents
        (record s { num_built = suc s.num_built; received = pkg ∷ s.received })

-- The sets `unbuilt_host_dependencies` of the packages.
unfoldable pub all_unbuilt : PackageMap → Dict Text (List Text)
all_unbuilt [] = []
all_unbuilt ((name, pkg) ∷ m) = (name, pkg.unbuilt_host_dependencies) ∷ all_unbuilt m

-- pkg_map[pkg_name].unbuilt_host_dependencies.difference_update(already_built)
unfoldable pub subtract_built :
    List Text → List Text → Dict Text (List Text) → Result (Dict Text (List Text))
subtract_built already_built [] unbuilt = ok unbuilt
subtract_built already_built (name ∷ names) unbuilt = do
  deps ← get_item name unbuilt
  subtract_built already_built names (put name (difference deps already_built) unbuilt)

-- The first loop of `run`.
unfoldable pub fill_queue : PackageMap → List Text → Builder → Result Builder
unfolding put_job
fill_queue pkg_map [] s = ok s
fill_queue pkg_map (name ∷ names) s = do
  pkg ← get_item name pkg_map
  deps ← get_item name s.unbuilt
  fill_queue pkg_map names (if is_empty deps then put_job pkg s else s)

-- No job is queued and no package is in a thread's hands.
abbrev pub idle : Dict Text (List Text) → ℕ → Builder
idle unbuilt num_built = record {
  unbuilt = unbuilt;
  build_queue = [];
  building = [];
  leaving = [];
  built_queue = [];
  building_rust_pkg = false;
  queue_idx = 1;
  indices = [];
  num_built = num_built;
  received = [];
}

-- `build_from_graph`, once it is known what to build, up to where `run` starts the threads.
unfoldable pub start_builder : PackageMap → List Text → Result Builder
unfolding all_unbuilt subtract_built fill_queue
start_builder pkg_map needs_build =
    let already_built = difference (keys pkg_map) needs_build in
    do
      unbuilt ← subtract_built already_built needs_build (all_unbuilt pkg_map)
      fill_queue pkg_map needs_build (idle unbuilt (length already_built))

-- One step of a thread or of the main thread.
pub data Step (pkg_map : PackageMap) : Builder → Builder → Type 0 where
  take :
      (s : Builder) (before after : List Job) (job : Job)
      → s.build_queue ≡ before ++ job ∷ after
      → ((other : Job)
          → (xs ys : List Job) → before ++ after ≡ xs ++ other ∷ ys
          → job_lt other job ≡ false)
      → Step pkg_map s (enter job.1 (record s { build_queue = before ++ after }))
  finish :
      (s : Builder) (before after : List Package) (pkg : Package) (res : Option Exception)
      → s.building ≡ before ++ pkg ∷ after
      → Step pkg_map s (report pkg res (record s { building = before ++ after }))
  exit :
      (s : Builder) (before after : List Package) (pkg : Package)
      → s.leaving ≡ before ++ pkg ∷ after
      → Step pkg_map s (leave pkg (record s { leaving = before ++ after }))
  get :
      (s t : Builder) (pkg : Package) (res : Option Exception)
      (rest : List (Package × Option Exception))
      → ltb s.num_built (length pkg_map) ≡ true
      → s.built_queue ≡ (pkg, res) ∷ rest
      → receive pkg_map pkg res (record s { built_queue = rest }) ≡ ok t
      → Step pkg_map s t

pub data Reachable (pkg_map : PackageMap) (start : Builder) : Builder → Type 0 where
  here : Reachable pkg_map start start
  there : (s t : Builder) → Reachable pkg_map start s → Step pkg_map s t → Reachable pkg_map start t
