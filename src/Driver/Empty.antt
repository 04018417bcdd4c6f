-- ===== src/Driver/Empty.antt =====
-- targets/emptytarget/emptytarget.cpp: the functions that its library exports, as the driver finds
-- them behind a name.
use embdebug.Base.{none, some, Bytes, eq_bytes, if◌then◌else◌}
use embdebug.Driver.Load.{Loader, current_api_version}

abbrev pub empty_library : Bytes → Loader (Unit {0}) (Unit {0})
empty_library name = record {
  load = λ soname. if eq_bytes soname name then some tt else none;
  api_version = λ handle. some current_api_version;
  create_target = λ handle. some (λ flags. tt);
}
