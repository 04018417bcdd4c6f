-- ===== src/Driver/Load.antt =====
-- tools/driver/Driver.cpp: the library of the target, and `main`. The calls that load a library are
-- parameters: `dlopen` and `dlsym`, or `LoadLibrary` and `GetProcAddress`.
use embdebug.Base.{
  ℕ, Bool, false, not, ◌||◌, [], ◌∷◌, ◌++◌, Option, none, some, Bytes, codes, ◌==◌, if◌then◌else◌,
}
use embdebug.Base.Int.{pos}
use embdebug.Base.Outcome.{Outcome, ok, fault, exited, ◌>>=◌}
use embdebug.Driver.{Options, Verdict, finished, go_on, read_options}
use embdebug.Init.{Parts, init}
use embdebug.Strings.{starts_with}
use embdebug.Trace.{Flags, trace_flags}

pub data Platform : Type 0 where
  windows apple other : Platform

abbrev prefix_of : Platform → Bytes
prefix_of Platform.windows = codes "embdebug-target-"
prefix_of _ = codes "libembdebug-target-"

abbrev suffix_of : Platform → Bytes
suffix_of Platform.windows = codes ".dll"
suffix_of Platform.apple = codes ".dylib"
suffix_of Platform.other = codes ".so"

-- Whether `rfind` finds a text.
unfoldable pub occurs : Bytes → Bytes → Bool
unfolding starts_with
occurs text [] = starts_with [] text
occurs text (c ∷ s) = starts_with (c ∷ s) text || occurs text s

-- The name of the library, which is built from that of the target if it is not one.
unfoldable pub library_name : Platform → Bytes → Bytes
unfolding occurs
library_name platform soname =
    if not (occurs (suffix_of platform) soname)
    then prefix_of platform ++ (soname ++ suffix_of platform)
    else soname

-- A library `H`, its function `ITargetVersion`, and the target that `create_target` makes.
pub record Loader (H T : Type 0) : Type 0 where
  pub load : Bytes → Option H
  pub api_version : H → Option ℕ
  pub create_target : H → Option (Flags → T)

-- `ITarget::CURRENT_API_VERSION`.
abbrev pub current_api_version : ℕ
current_api_version = 1

-- `exit(EXIT_FAILURE)` where a step fails.
abbrev pub or_exit : {A : Type 0} → Option A → Outcome A
or_exit none = fault exited
or_exit (some a) = ok a

unfoldable pub load_target_so : {H T : Type 0} → Loader H T → Bytes → Flags → Outcome T
load_target_so loader name flags = do
  handle ← or_exit (loader.load name)
  version ← or_exit (loader.api_version handle)
  if not (version == current_api_version)
      then fault exited
      else (do create ← or_exit (loader.create_target handle); ok (create flags))

unfoldable pub load_target_dll : {H T : Type 0} → Loader H T → Bytes → Flags → Outcome T
load_target_dll loader name flags = do
  handle ← or_exit (loader.load name)
  api_version ← or_exit (loader.api_version handle)
  if not (api_version == current_api_version)
      then fault exited
      else (do create_target ← or_exit (loader.create_target handle); ok (create_target flags))

-- The choice between the two, which the preprocessor makes.
unfoldable pub load_target : {H T : Type 0} → Platform → Loader H T → Bytes → Flags → Outcome T
unfolding load_target_so load_target_dll
load_target Platform.windows loader name flags = load_target_dll loader name flags
load_target _ loader name flags = load_target_so loader name flags

module _ {H : Type 0} (p : Parts) (loader : Loader H p.T) (platform : Platform) where
  -- `main` behind the reading of the options.
  unfoldable pub start : Verdict → Outcome Bool
  unfolding library_name load_target init
  start (finished status) = ok status
  start (go_on st) = do
    target ← load_target platform loader (library_name platform st.soname) st.flags
    init p target st.flags st.from_stdin (pos st.port) st.size false

  -- `main`: whether it returns `EXIT_SUCCESS`. The command line is none where cxxopts throws.
  unfoldable pub main : Option Options → Outcome Bool
  unfolding start read_options trace_flags
  main none = ok false
  main (some o) = do verdict ← read_options o trace_flags; start verdict
