-- ===== src/Pywasmcross/Types.antt =====
-- The arguments of pywasmcross.py, and what the wrapper takes from its surroundings.
use pyodide.Base.{ℕ, Text, Bool, List, Option, Completed}

pub data Exports : Type 0 where
  whole_archive requested pyinit : Exports
  listed : List Text → Exports

pub record CrossCompileArgs : Type 0 where
  pub cflags : Text
  pub cxxflags : Text
  pub ldflags : Text
  pub pkgname : Text
  pub target_install_dir : Text
  pub pythoninclude : Text
  pub exports : Exports

-- Python's character classes and `repr`, the file system, the environment and the commands run.
pub record Surroundings : Type 0 where
  pub is_space : ℕ → Bool
  pub is_decimal : ℕ → Bool
  pub repr : List Text → Text
  pub splitlines : Text → List Text
  -- str(Path(p).resolve())
  pub resolve : Text → Text
  -- str(Path(p) / q)
  pub path_join : Text → Text → Text
  pub sys_prefix : Text
  pub sys_base_prefix : Text
  -- str(Path(sys.argv[0]).parent)
  pub symlinks_dir : Text
  pub meson_cross_file : Option Text
  pub which : Text → Option Text
  pub run : List Text → Completed
