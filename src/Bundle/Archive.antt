-- ===== src/Bundle/Archive.antt =====
-- What the tool sees of a ZIP archive and of the directory that it extracts to.
use delta_protocol.Prelude.{ℕ, Option, none, some, List, [], ◌∷◌, map, if◌then◌else◌}
use delta_protocol.Text.{Text, Bytes, text_eq}
use delta_protocol.Result.{err, or_raise}
use delta_protocol.Bundle.Names.{Outcome, unreadable}

-- An entry of `zf.infolist()`. The data is `none` where reading it raises.
pub record ZipEntry : Type 0 where
  pub filename : Text
  pub file_size : ℕ
  pub content : Option Bytes

abbrev pub Zip : Type 0
Zip = List ZipEntry

-- `zf.namelist()`
abbrev pub namelist : Zip → List Text
namelist zf = map (λ (e : ZipEntry). e.filename) zf

-- `zf.read(name)`, of names that are distinct.
unfoldable pub read : Zip → Text → Outcome Bytes
read [] name = err unreadable
read (e ∷ zf) name = if text_eq e.filename name then or_raise e.content unreadable else read zf name

-- The files of a directory, the latest first.
abbrev pub Directory : Type 0
Directory = List (Text × Bytes)

unfoldable pub file_at : Directory → Text → Option Bytes
file_at [] name = none
file_at ((n, b) ∷ dir) name = if text_eq n name then some b else file_at dir name
