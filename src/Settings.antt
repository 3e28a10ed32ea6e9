-- ===== src/Settings.antt =====
-- Libraries/pbxsetting: build settings. `Lists` is Sources/Type.cpp, `Value` is Sources/Value.cpp,
-- `Operations` is `ProcessOperation` of Sources/Environment.cpp, `Level` is Sources/Level.cpp with
-- Sources/Setting.cpp and Sources/Condition.cpp, and `Environment` the rest of
-- Sources/Environment.cpp.
pub mod Lists
pub mod Value
pub mod Operations
pub mod Level
pub mod Environment
