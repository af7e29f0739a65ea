-- ===== src/Plugins.antt =====
-- internal/plugins: the built-in plugins that need no service. A handler returns the plugin's new state
-- and what it sends, in order.
pub mod Sends
pub mod MdFilter
pub mod Caption
pub mod Interrupter
pub mod Sink
pub mod Llm
pub mod Tts
pub mod Asr
