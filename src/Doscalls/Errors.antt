-- ===== src/Doscalls/Errors.antt =====
-- native/os2errors.h: the errors that the calls answer.
use ine_debugger.Prelude.{ℕ}

abbrev pub no_error : ℕ
no_error = 0

abbrev pub error_invalid_function : ℕ
error_invalid_function = 1

abbrev pub error_too_many_open_files : ℕ
error_too_many_open_files = 4

abbrev pub error_access_denied : ℕ
error_access_denied = 5

abbrev pub error_invalid_handle : ℕ
error_invalid_handle = 6

abbrev pub error_not_enough_memory : ℕ
error_not_enough_memory = 8

abbrev pub error_bad_environment : ℕ
error_bad_environment = 10

abbrev pub error_invalid_data : ℕ
error_invalid_data = 13

abbrev pub error_invalid_parameter : ℕ
error_invalid_parameter = 87

abbrev pub error_open_failed : ℕ
error_open_failed = 110

abbrev pub error_invalid_target_handle : ℕ
error_invalid_target_handle = 114
