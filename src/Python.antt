-- ===== src/Python.antt =====
-- What the modules share of Python itself: texts, exceptions, and statements with effects.
mod Texts
mod Exceptions
mod Actions
mod Sorting
mod Values
mod Objects
pub use Texts.{
  Piece, lit, quoted, num, seconds, number_pieces, Text, text_or-some, text_or_not_blank,
  is_empty_text_of_word,
}
unfoldable pub use Texts.{
  is_space, is_blank, is_blank_piece, is_blank_text, is_empty_text, text_or, has_text, join_comma,
}
pub use Exceptions.*
pub use Actions.*
unfoldable pub use Sorting.{sorted}
pub use Sorting.{contains-sorted}
pub use Values.{
  Value, none_value, str, strs, bool, int, ticks, opaque, mapping, sequence, tool_call, tool_spec,
  Fields, no_fields, cons_field, Elements, no_elements, cons_element, Payload,
}
unfoldable pub use Values.{items, as_fields}
pub use Objects.{
  Loaded, loaded, malformed, failed, Builtins, word, as_mapping, as_sequence, as_text, is_none,
  get_or, get_value, items-as_fields,
}
unfoldable pub use Objects.{entries, flat, is_word, string_of, is_true, attribute_of}
