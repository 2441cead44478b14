-- ===== src/Hid/Context.antt =====
-- `report_t` and `mccr_report_descriptor_context_t` of src/libmccr/mccr-hid.c: reference counts and
-- the getters.
use mccr.Prelude.{ℕ, ◌+◌, ◌-◌, ◌%◌, ◌^◌, Option, none, some, ◌==◌, if◌then◌else◌}
use mccr.Hid.Usages.{UsageArray, empty_array, lookup_usage_array}

pub record Report : Type 0 where
  pub usages : UsageArray
  -- in bytes
  pub size : ℕ

pub record DescriptorContext : Type 0 where
  -- the bit pattern of an `int`
  pub refcount : ℕ
  pub input : Report
  pub feature : Report

abbrev pub int_mod : ℕ
int_mod = 2 ^ 32

abbrev pub empty_report : Report
empty_report = record { usages = empty_array; size = 0 }

-- as `calloc` leaves it, with the count set to 1
abbrev pub fresh_context : DescriptorContext
fresh_context = record { refcount = 1; input = empty_report; feature = empty_report }

-- mccr_report_descriptor_context_ref
unfoldable pub context_ref : DescriptorContext → DescriptorContext
context_ref ctx = record ctx { refcount = (ctx.refcount + 1) % int_mod }

-- mccr_report_descriptor_context_unref; `none` when the context has been freed
unfoldable pub context_unref : DescriptorContext → Option DescriptorContext
context_unref ctx =
    if ctx.refcount == 1
    then none
    else some (record ctx { refcount = (ctx.refcount + int_mod - 1) % int_mod })

-- mccr_report_descriptor_get_input_report_usage: the offset and the size in bits
unfoldable pub get_input_report_usage : DescriptorContext → ℕ → Option (ℕ × ℕ)
get_input_report_usage ctx usage_id = elim (lookup_usage_array ctx.input.usages usage_id) [
  | none ↦ none
  | some usage ↦ some (usage.offset_bits, usage.size_bits)
]

-- mccr_report_descriptor_get_input_report_size
unfoldable pub get_input_report_size : DescriptorContext → ℕ
get_input_report_size ctx = ctx.input.size

-- mccr_report_descriptor_get_feature_report_usage
unfoldable pub get_feature_report_usage : DescriptorContext → ℕ → Option (ℕ × ℕ)
get_feature_report_usage ctx usage_id = elim (lookup_usage_array ctx.feature.usages usage_id) [
  | none ↦ none
  | some usage ↦ some (usage.offset_bits, usage.size_bits)
]

-- mccr_report_descriptor_get_feature_report_size
unfoldable pub get_feature_report_size : DescriptorContext → ℕ
get_feature_report_size ctx = ctx.feature.size
