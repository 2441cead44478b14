-- ===== src/Hid/Parser/Items.antt =====
-- Short items as values, and how HID lays them out in a descriptor: a prefix byte with the tag, the
-- type and the size of the data, then the data.
use mccr.Prelude.{
  ℕ, ◌+◌, ◌*◌, ◌<◌, ◌≡◌, ◌⊎◌, ◌≢◌, List, [], ◌∷◌, ◌++◌, Run, ok, ◌>>=◌, ◌==◌, if◌then◌else◌, length,
  Bool,
}
use mccr.Prelude.Bytes.{Bytes, from_le}
use mccr.Hid.Usages.{Allocator}
use mccr.Hid.Parser.{ParseContext, parse_short_item}

pub record Item : Type 0 where
  pub type : ℕ
  pub tag : ℕ
  pub payload : Bytes

-- the two low bits of the prefix
abbrev pub size_code : ℕ → ℕ
size_code n = if n == 4 then 3 else n

abbrev pub prefix_of : Item → ℕ
prefix_of it = 16 * it.tag + 4 * it.type + size_code (length it.payload)

abbrev pub encode_item : Item → Bytes
encode_item it = prefix_of it ∷ it.payload

abbrev pub encode : List Item → Bytes
encode [] = []
encode (it ∷ items) = encode_item it ++ encode items

-- What a short item can be. The prefix 0xfe starts a long item.
pub record IsItem (it : Item) : Type 0 where
  pub type_fits : it.type < 4
  pub tag_fits : it.tag < 16
  pub size_fits : (length it.payload < 3) ⊎ (length it.payload ≡ 4)
  pub not_long : prefix_of it ≢ 0b11111110

abbrev pub AllItems : List Item → Type 0
AllItems [] = Unit
AllItems (it ∷ items) = IsItem it × AllItems items

module _ (grants : Allocator) (log_is_enabled : Bool) where
  -- one item, its data read as a little-endian number
  abbrev pub parse_item : Item → ParseContext → Run ParseContext
  parse_item it ctx = parse_short_item grants log_is_enabled ctx it.type it.tag (from_le it.payload)

  -- The items in order, up to the first that is refused.
  unfoldable pub parse_items : List Item → ParseContext → Run ParseContext
  parse_items [] ctx = ok ctx
  parse_items (it ∷ items) ctx =
      let rest : Run ParseContext = parse_item it ctx >>= parse_items items in
      if ctx.fatal_error then ok ctx else rest
