-- ===== src/Node/Linking.antt =====
-- Link codes, and the files in which a node keeps its token and the address of the core
-- (src/node/linking.rs). `trim` is that of the standard library.
pub mod Digits
use auxlry.Prelude.{ℕ, zero, suc, ◌/◌, ◌%◌, String, Option, none, some, [], ◌∷◌, ◌++◌}
use auxlry.Prelude.Bytes.{Bytes, codes, em_dash}
use auxlry.Node.Protocol.{Result, ok, failed}
use Prim.Native.Char.{Char}

abbrev pub digit_char : ℕ → Char
digit_char zero = "0"
digit_char (suc zero) = "1"
digit_char (suc (suc zero)) = "2"
digit_char (suc (suc (suc zero))) = "3"
digit_char (suc (suc (suc (suc zero)))) = "4"
digit_char (suc (suc (suc (suc (suc zero))))) = "5"
digit_char (suc (suc (suc (suc (suc (suc zero)))))) = "6"
digit_char (suc (suc (suc (suc (suc (suc (suc zero))))))) = "7"
digit_char (suc (suc (suc (suc (suc (suc (suc (suc zero)))))))) = "8"
digit_char d = "9"

-- The last digits of a number, so many as the width, before the text that follows.
unfoldable pub last_digits : ℕ → ℕ → String → String
last_digits zero n s = s
last_digits (suc width) n s = last_digits width (n / 10) (String.◌∷◌ (digit_char (n % 10)) s)

-- `drawn` is the random u32. The format writes six digits, which is all of a number below a million.
unfoldable pub generate_link_code : ℕ → String
generate_link_code drawn = last_digits 6 (drawn % 1000000) String.[]

-- `none` is a file that is not there.
pub record NodeFiles : Type 0 where
  pub token_file : Option Bytes
  pub core_addr_file : Option Bytes

-- The directory that cannot be made, or the file that cannot be written, is an error.
pub data Disk : Type 0 where
  writes : Disk
  no_dir : Disk
  no_write : Disk

unfoldable pub store_token_file : Disk → Bytes → NodeFiles → Result Unit × NodeFiles
store_token_file writes token files = (ok tt, record files { token_file = some token })
store_token_file no_dir token files = (failed (codes "failed to create token directory"), files)
store_token_file no_write token files = (failed (codes "failed to write token file"), files)

unfoldable pub store_core_addr : Disk → Bytes → NodeFiles → Result Unit × NodeFiles
store_core_addr writes addr files = (ok tt, record files { core_addr_file = some addr })
store_core_addr no_dir addr files = (failed (codes "failed to create core addr directory"), files)
store_core_addr no_write addr files = (failed (codes "failed to write core addr file"), files)

module _ (trim : Bytes → Bytes) where
  abbrev unless_empty : Bytes → Bytes → Result Bytes
  unless_empty empty [] = failed empty
  unless_empty empty (c ∷ text) = ok (c ∷ text)

  abbrev read_trimmed : Bytes → Bytes → Option Bytes → Result Bytes
  read_trimmed missing empty none = failed missing
  read_trimmed missing empty (some contents) = unless_empty empty (trim contents)

  unfoldable pub read_token_file : NodeFiles → Result Bytes
  read_token_file files =
      read_trimmed (codes "no token found " ++ (em_dash ++ codes " run `auxlry node link` first"))
        (codes "token file is empty " ++ (em_dash ++ codes " run `auxlry node link` first"))
        files.token_file

  unfoldable pub read_core_addr : NodeFiles → Result Bytes
  read_core_addr files =
      read_trimmed
        (codes "no core address found " ++ (em_dash ++ codes " run `auxlry node link` first"))
        (codes "core addr file is empty " ++ (em_dash ++ codes " run `auxlry node link` first"))
        files.core_addr_file
