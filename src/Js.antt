-- ===== src/Js.antt =====
-- JavaScript values as the validators see them: UTF-16 texts, numbers, and the result of
-- `JSON.parse`, which TypeScript types as `unknown`.
pub mod Text
pub mod Value
