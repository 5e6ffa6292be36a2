-- ===== src/Js.antt =====
-- What the scripts use of JavaScript: values, exceptions, and the functions of the host.
pub mod Json
mod Values
mod Effect
mod Keeping
mod Environment
pub use Values.*
pub use Effect.*
pub use Keeping.*
unfoldable pub use Environment.{
  prop, message, text_of, read, text_content, fixed_text, upper_text, elements, to_number,
  positive_number, positive,
}
pub use Environment.{Host}
