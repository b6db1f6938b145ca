-- ===== src/Tables/Tags.antt =====
-- The tags of a shadow (web/src/components/thing/ShadowTags.vue).
mod Tests
use Prim.Native.String.{String}
use tio.Common.{Bool, true, false, List, [], ◌∷◌, map, Option, none, some, ◌==◌, if◌then◌else◌}
use tio.Common.Dict.{Dict}
use tio.Json.{Json, entries, null, bool, num, str, arr, obj}

-- What a tag shows: a text, or a value that is shown as a text and can be viewed.
pub data Shown : Type 0 where
  text : String → Shown
  value : Json → Shown

pub record Tag : Type 0 where
  pub key : String
  pub type : String
  pub shown : Shown

-- A value of JSON is never undefined, a function or a symbol.
abbrev pub convert_data_type_to_tag_type : Json → String × Shown
convert_data_type_to_tag_type (num n) = ("", text n)
convert_data_type_to_tag_type (bool true) = ("", text "true")
convert_data_type_to_tag_type (bool false) = ("", text "false")
convert_data_type_to_tag_type null = ("primary", text "null")
convert_data_type_to_tag_type (arr xs) = ("warning", value (arr xs))
convert_data_type_to_tag_type (obj fs) = ("warning", value (obj fs))
convert_data_type_to_tag_type (str s) = ("info", text (if s == "" then "-" else s))

abbrev tag_of : String × Json → Tag
tag_of (key, v) =
    let (type, shown) = convert_data_type_to_tag_type v in
    record { key = key; type = type; shown = shown }

-- The watch on the data, an object where there is one.
abbrev pub data_changed : Option Json → List Tag → List Tag
data_changed none tags = tags
data_changed (some v) tags = map tag_of (entries v)
