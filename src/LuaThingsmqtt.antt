-- ===== src/LuaThingsmqtt.antt =====
-- lua-thingsmqtt.cpp, lua-thingsmqtt-private.hpp and inc/lua-thingsmqtt.h: the Lua module that scripts
-- load, whose C functions read their arguments from the stack and call a controller.
pub mod Entries
pub mod Handler
pub mod Process
pub mod Config
pub mod Methods
pub mod Publishing
pub mod Handlers
pub mod Description
pub mod Fields
pub mod Configuration
pub mod Sending
pub mod Connecting
pub mod Reading
pub mod Steps
pub mod Counts
pub mod Stack
pub mod WellFormed
pub mod Scripts
