-- ===== src/Conversions.antt =====
-- include/rikitiki/content_handler.h, src/connContext.cc: TypeConversions, the table of the functions that
-- convert a type to and from content, and type_conversion_error, which answers where there is none.
-- The classes that a content type is converted through, and the functions, are parameters.
pub mod Table
pub mod Accept
use rikitiki.Base.{ℕ, zero, suc, List, [], ◌∷◌, Option, none, some, Bytes, codes, drop, set}
use rikitiki.Http.Header.{Header, joined}
use rikitiki.Http.ContentType.{ContentType, members, to_string}
use rikitiki.Http.ContentType
use rikitiki.Http.Status
use rikitiki.Http.Status.{HttpStatus}
use rikitiki.Http.Outgoing.{Writer, Error}
use rikitiki.Dispatch.{Context}
use rikitiki.Context.{Returned, ok, err, put_header}

-- The types whose values are the indices of the table, from 0 up.
abbrev pub indices : List ContentType
indices = drop 1 members

-- The index of a content type. DEFAULT and MAX fail the assertion; ALL, which is -1, passes it and
-- lies outside the table.
unfoldable pub slot : ContentType → Option ℕ
slot ContentType.default = none
slot ContentType.all = none
slot ContentType.max = none
slot ContentType.application_atom_xml = some 0
slot ContentType.application_ecmascript = some 1
slot ContentType.application_edi_x12 = some 2
slot ContentType.application_edifact = some 3
slot ContentType.application_json = some 4
slot ContentType.application_javascript = some 5
slot ContentType.application_octet_stream = some 6
slot ContentType.application_ogg = some 7
slot ContentType.application_pdf = some 8
slot ContentType.application_postscript = some 9
slot ContentType.application_rdf_xml = some 10
slot ContentType.application_rss_xml = some 11
slot ContentType.application_soap_xml = some 12
slot ContentType.application_font_woff = some 13
slot ContentType.application_xhtml_xml = some 14
slot ContentType.application_xml = some 15
slot ContentType.application_xml_dtd = some 16
slot ContentType.application_xop_xml = some 17
slot ContentType.application_zip = some 18
slot ContentType.application_gzip = some 19
slot ContentType.audio_basic = some 20
slot ContentType.audio_l24 = some 21
slot ContentType.audio_mp4 = some 22
slot ContentType.audio_mpeg = some 23
slot ContentType.audio_ogg = some 24
slot ContentType.audio_vorbis = some 25
slot ContentType.audio_vnd_rn_realaudio = some 26
slot ContentType.audio_vnd_wave = some 27
slot ContentType.audio_webm = some 28
slot ContentType.image_gif = some 29
slot ContentType.image_jpeg = some 30
slot ContentType.image_pjpeg = some 31
slot ContentType.image_png = some 32
slot ContentType.image_svg_xml = some 33
slot ContentType.image_tiff = some 34
slot ContentType.image_vnd_microsoft_icon = some 35
slot ContentType.message_http = some 36
slot ContentType.message_imdn_xml = some 37
slot ContentType.message_partial = some 38
slot ContentType.message_rfc822 = some 39
slot ContentType.model_example = some 40
slot ContentType.model_iges = some 41
slot ContentType.model_mesh = some 42
slot ContentType.model_vrml = some 43
slot ContentType.model_x3d_binary = some 44
slot ContentType.model_x3d_vrml = some 45
slot ContentType.model_x3d_xml = some 46
slot ContentType.multipart_mixed = some 47
slot ContentType.multipart_alternative = some 48
slot ContentType.multipart_related = some 49
slot ContentType.multipart_form_data = some 50
slot ContentType.multipart_signed = some 51
slot ContentType.multipart_encrypted = some 52
slot ContentType.text_cmd = some 53
slot ContentType.text_css = some 54
slot ContentType.text_csv = some 55
slot ContentType.text_html = some 56
slot ContentType.text_javascript = some 57
slot ContentType.text_plain = some 58
slot ContentType.text_vcard = some 59
slot ContentType.text_xml = some 60
slot ContentType.video_mpeg = some 61
slot ContentType.video_mp4 = some 62
slot ContentType.video_ogg = some 63
slot ContentType.video_quicktime = some 64
slot ContentType.video_webm = some 65
slot ContentType.video_x_matroska = some 66
slot ContentType.video_x_ms_wmv = some 67
slot ContentType.video_x_flv = some 68

abbrev pub Handlers : Type 0 → Type 0
Handlers H = List (Option H)

module _ {H : Type 0} where
  abbrev empty_slots : ℕ → Handlers H
  empty_slots zero = []
  empty_slots (suc n) = none ∷ empty_slots n

  -- HandlerAdders<Th>::Add, for the types of one class.
  pub add_types : H → List ContentType → Handlers H → Option (Handlers H)
  unfolding slot
  add_types f [] hs = some hs
  add_types f (t ∷ ts) hs = elim (slot t) [
    | none ↦ none
    | some i ↦ add_types f ts (set hs i (some f))
  ]

  -- HandlerAdders<T...>::Add: each class with its content types and its function.
  pub add_classes : List (List ContentType × H) → Handlers H → Option (Handlers H)
  unfolding add_types
  add_classes [] hs = some hs
  add_classes ((ts, f) ∷ classes) hs = elim (add_types f ts hs) [
    | none ↦ none
    | some hs' ↦ add_classes classes hs'
  ]

  -- TypeConversions::TypeConversions
  unfoldable pub new_conversions : List (List ContentType × H) → Option (Handlers H)
  unfolding add_classes
  new_conversions classes = add_classes classes (empty_slots 69)

  -- The loop of type_conversion_error.
  unfoldable pub accept_text : List ContentType → Handlers H → Bytes → Bytes
  unfolding to_string
  accept_text [] hs accepts = accepts
  accept_text (t ∷ ts) [] accepts = accepts
  accept_text (t ∷ ts) (none ∷ hs) accepts = accept_text ts hs accepts
  accept_text (t ∷ ts) (some f ∷ hs) accepts = accept_text ts hs (joined accepts (to_string t))

  abbrev pub accept_header : Handlers H → Header
  accept_header hs = record { first = codes "Accept"; second = accept_text indices hs [] }

-- What type_conversion_error throws: a HandlerException, or what writing the header throws.
pub data Thrown : Type 0 where
  handler_exception : Context Writer → HttpStatus → Thrown
  other_exception : Error → Thrown

thrown_after : Returned → Thrown
thrown_after (ok ctx) = handler_exception ctx Status.not_acceptable
thrown_after (err ctx e) = other_exception e

-- type_conversion_error
unfoldable pub type_conversion_error : {H : Type 0} → Handlers H → Context Writer → Thrown
unfolding accept_text put_header thrown_after
type_conversion_error hs ctx = thrown_after (put_header (accept_header hs) ctx)
