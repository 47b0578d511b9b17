-- ===== src/Principal/Codec.antt =====
-- The stored form of a named principal.
use lib_agent_oauth.Prelude.{String, ◌≡◌, refl, Option, some}
use lib_agent_oauth.Map.{Map}
use lib_agent_oauth.Json.{Json, text, obj, done, member, field}
use lib_agent_oauth.Json.Codec.{
  Codec, ◌>>=◌, members, as_text, put_map, text_codec, encode_map, decode_map, decode_map-put_map,
}

pub record PrincipalRecord : Type 0 where
  pub code : String
  pub binding : Map String

unfoldable pub encode_record : PrincipalRecord → Json
encode_record r = obj (
    member "code" (text r.code)
      (put_map "binding" (encode_map text_codec r.binding) r.binding done))

unfoldable pub decode_record : Json → Option PrincipalRecord
decode_record j = do
  m ← members j
  code ← as_text (field "code" m)
  binding ← decode_map text_codec (field "binding" m)
  some (record { code = code; binding = binding })

pub decode_record-encode : (r : PrincipalRecord) → decode_record (encode_record r) ≡ some r
unfolding decode_record encode_record
decode_record-encode r = rw (decode_map-put_map text_codec "binding" r.binding done refl)

abbrev pub record_codec : Codec PrincipalRecord
record_codec = record {
  encode = encode_record;
  decode = decode_record;
  decode-encode = decode_record-encode;
}
