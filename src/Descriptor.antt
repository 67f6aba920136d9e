-- ===== src/Descriptor.antt =====
-- src/descriptor/mod.rs: the descriptors that the tables carry.
pub mod Types
pub mod Core
pub mod Iter
use mpeg2ts_reader.Base.{ℕ, ltb, if◌then◌else◌, List, length}
use mpeg2ts_reader.Base.{Outcome, ok, err}

pub data DescriptorError : Type 0 where
  -- the tag, the size of the buffer and the size expected
  not_enough_data : ℕ → ℕ → ℕ → DescriptorError
  -- the length in the header and the size of the buffer
  tag_too_long_for_buffer : ℕ → ℕ → DescriptorError
  buffer_too_short : ℕ → DescriptorError
  unhandled_tag_value : ℕ → DescriptorError

unfoldable pub descriptor_len : List ℕ → ℕ → ℕ → Outcome DescriptorError (Unit {0})
descriptor_len buf tag len =
    if ltb (length buf) len then err (not_enough_data tag (length buf) len) else ok tt

-- `UnknownDescriptor`.
pub record UnknownDescriptor : Type 0 where
  pub tag : ℕ
  pub payload : List ℕ

abbrev pub new_unknown : ℕ → List ℕ → Outcome DescriptorError UnknownDescriptor
new_unknown tag payload = ok (record { tag = tag; payload = payload })
