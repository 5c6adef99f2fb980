-- ===== src/Sleigh/Decoder.antt =====
-- The state of the `Decoder` of sleigh/sleigh-runtime/src/decoder.rs, the tokens that it reads and the values
-- that it gives to pattern expressions. A byte is a number below 256; `none` is a panic.
pub mod Tokens
use icicle_emu.Base.{
  ℕ, ◌+◌, ◌-◌, ◌%◌, min, Bool, true, false, ◌&&◌, ◌||◌, Option, none, some, ◌>>=◌, List, [], ◌∷◌,
  ◌++◌, ltb, leb, ◌==◌, if◌then◌else◌, length, take, drop,
}
use mathlib.Core.List.{reverse}
use icicle_emu.Mem.Page.{from_le_bytes, to_le_bytes}
use icicle_emu.Sleigh.Field.{Token, Field, extract}

pub record Decoder : Type 0 where
  pub global_context : ℕ
  pub context : ℕ
  pub future_context_mods : List (ℕ × List (Field × ℕ))
  pub bytes : List ℕ
  pub big_endian : Bool
  pub allow_backtracking : Bool
  pub ignore_delay_slots : Bool
  pub allow_any_addr_globalsets : Bool
  pub max_subtables : ℕ
  pub is_valid : Bool
  pub base_addr : ℕ
  pub offset : ℕ
  pub next_offset : ℕ
  pub token_stack : List (ℕ × ℕ)
  pub eval_stack : List ℕ

abbrev pub new : Decoder
new = record {
  global_context = 0;
  context = 0;
  future_context_mods = [];
  bytes = [];
  big_endian = false;
  allow_backtracking = true;
  ignore_delay_slots = false;
  allow_any_addr_globalsets = false;
  max_subtables = 64;
  is_valid = false;
  base_addr = 0;
  offset = 0;
  next_offset = 0;
  token_stack = [];
  eval_stack = [];
}

abbrev pub set_inst : Decoder → ℕ → List ℕ → Decoder
set_inst d base_addr bytes = record d {
  context = d.global_context;
  base_addr = base_addr;
  offset = 0;
  next_offset = 0;
  bytes = bytes;
}

-- `bytes.get(start..end)`
abbrev pub get_range {ℓ} : {A : Type ℓ} → List A → ℕ → ℕ → Option (List A)
get_range bytes start end =
    if leb start end && leb end (length bytes)
    then some (take (end - start) (drop start bytes))
    else none

-- The bytes are copied to the start of a buffer of eight.
abbrev pub raw_value : Option (List ℕ) → Option ℕ
raw_value none = some 0
raw_value (some bytes) = if leb (length bytes) 8 then some (from_le_bytes bytes) else none

unfoldable pub get_raw_token : Decoder → ℕ → ℕ → Option ℕ
get_raw_token d token_offset token_size =
    let start = token_offset + d.offset in
    raw_value (get_range d.bytes start (min (start + token_size) (length d.bytes)))

abbrev pub ordered : Bool → List ℕ → List ℕ
ordered true bytes = reverse bytes
ordered false bytes = bytes

abbrev pub read_value : Bool → Option (List ℕ) → ℕ
read_value big_endian none = 0
read_value big_endian (some bytes) = from_le_bytes (ordered big_endian bytes)

-- `read_token!`
abbrev pub read_token : Decoder → Token → ℕ
read_token d token =
    let start = token.offset + d.offset in
    read_value token.big_endian (get_range d.bytes start (start + token.size))

abbrev pub is_specialized : ℕ → Bool
is_specialized n = (n == 1) || (n == 2) || (n == 4) || (n == 8)

-- The other sizes: the first bytes of the raw token are reversed.
abbrev pub reordered : Token → ℕ → ℕ
reordered token raw =
    let bytes = to_le_bytes 8 raw in
    from_le_bytes (ordered token.big_endian (take token.size bytes) ++ drop token.size bytes)

unfoldable pub get_token : Decoder → Token → Option ℕ
unfolding get_raw_token
get_token d token =
    if is_specialized token.size
    then some (read_token d token)
    else if ltb token.size 8
    then (do raw ← get_raw_token d token.offset token.size; some (reordered token raw))
    else none

-- The values of the expressions that change the context.
pub data ContextModValue : Type 0 where
  token_field : Token → Field → ContextModValue
  context_field : Field → ContextModValue
  inst_start inst_next : ContextModValue

unfoldable pub eval_context_value : Decoder → ContextModValue → Option ℕ
unfolding get_token extract
eval_context_value d (ContextModValue.context_field field) = extract field d.context
eval_context_value d (ContextModValue.token_field token field) = do
  value ← get_token d token
  extract field value
eval_context_value d ContextModValue.inst_start = some d.base_addr
eval_context_value d ContextModValue.inst_next = some d.base_addr
