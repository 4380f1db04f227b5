-- ===== src/Http/ContentType.antt =====
-- src/http/content_types.cc, include/rikitiki/http/content_types.h: the content types, their names, and
-- FromString with the map that it fills at its first call. The two overloads of FromString are one
-- function. to_rt_string keeps the text.
pub mod Names
use rikitiki.Base.StringMap.{StringMap, insert, get_or}
use rikitiki.Base.{List, [], ◌∷◌, Bytes, codes, equal, if◌then◌else◌, word, skip_spaces, isspace}

pub data ContentType : Type 0 where
  default all application_atom_xml application_ecmascript application_edi_x12 application_edifact
        application_json application_javascript application_octet_stream application_ogg
        application_pdf application_postscript application_rdf_xml application_rss_xml
        application_soap_xml application_font_woff application_xhtml_xml application_xml
        application_xml_dtd application_xop_xml application_zip application_gzip audio_basic
        audio_l24 audio_mp4 audio_mpeg audio_ogg audio_vorbis audio_vnd_rn_realaudio audio_vnd_wave
        audio_webm image_gif image_jpeg image_pjpeg image_png image_svg_xml image_tiff
        image_vnd_microsoft_icon message_http message_imdn_xml message_partial message_rfc822
        model_example model_iges model_mesh model_vrml model_x3d_binary model_x3d_vrml model_x3d_xml
        multipart_mixed multipart_alternative multipart_related multipart_form_data multipart_signed
        multipart_encrypted text_cmd text_css text_csv text_html text_javascript text_plain
        text_vcard text_xml video_mpeg video_mp4 video_ogg video_quicktime video_webm
        video_x_matroska video_x_ms_wmv video_x_flv max :
      ContentType

-- ContentType::ToString
unfoldable pub to_string : ContentType → Bytes
to_string all = codes "*/*"
to_string application_atom_xml = codes "application/atom+xml"
to_string application_ecmascript = codes "application/ecmascript"
to_string application_edi_x12 = codes "application/EDI-X12"
to_string application_edifact = codes "application/EDIFACT"
to_string application_json = codes "application/json"
to_string application_javascript = codes "application/javascript"
to_string application_octet_stream = codes "application/octet-stream"
to_string application_ogg = codes "application/ogg"
to_string application_pdf = codes "application/pdf"
to_string application_postscript = codes "application/postscript"
to_string application_rdf_xml = codes "application/rdf+xml"
to_string application_rss_xml = codes "application/rss+xml"
to_string application_soap_xml = codes "application/soap+xml"
to_string application_font_woff = codes "application/font-woff"
to_string application_xhtml_xml = codes "application/xhtml+xml"
to_string application_xml = codes "application/xml"
to_string application_xml_dtd = codes "application/xml-dtd"
to_string application_xop_xml = codes "application/xop+xml"
to_string application_zip = codes "application/zip"
to_string application_gzip = codes "application/gzip"
to_string audio_basic = codes "audio/basic"
to_string audio_l24 = codes "audio/L24"
to_string audio_mp4 = codes "audio/mp4"
to_string audio_mpeg = codes "audio/mpeg"
to_string audio_ogg = codes "audio/ogg"
to_string audio_vorbis = codes "audio/vorbis"
to_string audio_vnd_rn_realaudio = codes "audio/vnd-rn-realaudio"
to_string audio_vnd_wave = codes "audio/vnd-wave"
to_string audio_webm = codes "audio/webm"
to_string image_gif = codes "image/gif"
to_string image_jpeg = codes "image/jpeg"
to_string image_pjpeg = codes "image/pjpeg"
to_string image_png = codes "image/png"
to_string image_svg_xml = codes "image/svg+xml"
to_string image_tiff = codes "image/tiff"
to_string image_vnd_microsoft_icon = codes "image/vnd-microsoft-icon"
to_string message_http = codes "message/http"
to_string message_imdn_xml = codes "message/imdn+xml"
to_string message_partial = codes "message/partial"
to_string message_rfc822 = codes "message/rfc822"
to_string model_example = codes "model/example"
to_string model_iges = codes "model/iges"
to_string model_mesh = codes "model/mesh"
to_string model_vrml = codes "model/vrml"
to_string model_x3d_binary = codes "model/x3d+binary"
to_string model_x3d_vrml = codes "model/x3d+vrml"
to_string model_x3d_xml = codes "model/x3d+xml"
to_string multipart_mixed = codes "multipart/mixed"
to_string multipart_alternative = codes "multipart/alternative"
to_string multipart_related = codes "multipart/related"
to_string multipart_form_data = codes "multipart/form-data"
to_string multipart_signed = codes "multipart/signed"
to_string multipart_encrypted = codes "multipart/encrypted"
to_string text_cmd = codes "text/cmd"
to_string text_css = codes "text/css"
to_string text_csv = codes "text/csv"
to_string text_html = codes "text/html"
to_string text_javascript = codes "text/javascript"
to_string text_plain = codes "text/plain"
to_string text_vcard = codes "text/vcard"
to_string text_xml = codes "text/xml"
to_string video_mpeg = codes "video/mpeg"
to_string video_mp4 = codes "video/mp4"
to_string video_ogg = codes "video/ogg"
to_string video_quicktime = codes "video/quicktime"
to_string video_webm = codes "video/webm"
to_string video_x_matroska = codes "video/x-matroska"
to_string video_x_ms_wmv = codes "video/x-ms-wmv"
to_string video_x_flv = codes "video/x-flv"
to_string default = codes "text/html"
to_string max = codes "unknown"

-- The types from ALL up to MAX, in the order of the enumeration.
abbrev pub members : List ContentType
members =
    all ∷ application_atom_xml ∷ application_ecmascript ∷ application_edi_x12 ∷ application_edifact
    ∷ application_json ∷ application_javascript ∷ application_octet_stream ∷ application_ogg
    ∷ application_pdf ∷ application_postscript ∷ application_rdf_xml ∷ application_rss_xml
    ∷ application_soap_xml ∷ application_font_woff ∷ application_xhtml_xml ∷ application_xml
    ∷ application_xml_dtd ∷ application_xop_xml ∷ application_zip ∷ application_gzip ∷ audio_basic
    ∷ audio_l24 ∷ audio_mp4 ∷ audio_mpeg ∷ audio_ogg ∷ audio_vorbis ∷ audio_vnd_rn_realaudio
    ∷ audio_vnd_wave ∷ audio_webm ∷ image_gif ∷ image_jpeg ∷ image_pjpeg ∷ image_png ∷ image_svg_xml
    ∷ image_tiff ∷ image_vnd_microsoft_icon ∷ message_http ∷ message_imdn_xml ∷ message_partial
    ∷ message_rfc822 ∷ model_example ∷ model_iges ∷ model_mesh ∷ model_vrml ∷ model_x3d_binary
    ∷ model_x3d_vrml ∷ model_x3d_xml ∷ multipart_mixed ∷ multipart_alternative ∷ multipart_related
    ∷ multipart_form_data ∷ multipart_signed ∷ multipart_encrypted ∷ text_cmd ∷ text_css ∷ text_csv
    ∷ text_html ∷ text_javascript ∷ text_plain ∷ text_vcard ∷ text_xml ∷ video_mpeg ∷ video_mp4
    ∷ video_ogg ∷ video_quicktime ∷ video_webm ∷ video_x_matroska ∷ video_x_ms_wmv ∷ video_x_flv
    ∷ []

pub fill : List ContentType → StringMap ContentType → StringMap ContentType
unfolding to_string
fill [] types = types
fill (t ∷ ts) types = fill ts (insert (to_string t) t types)

-- The map after `if (types.empty())`.
pub filled : StringMap ContentType → StringMap ContentType
unfolding fill
filled [] = fill members []
filled (e ∷ types) = e ∷ types

-- ContentType::FromString, with the map before and after it. `types[type]` gives a name that the map does
-- not hold the value 0, application_atom_xml.
unfoldable pub from_string : Bytes → StringMap ContentType → ContentType × StringMap ContentType
unfolding filled equal
from_string type types =
    let types' = filled types in
    let found = get_or type application_atom_xml types' in
    if equal type [] then (default, types) else (found, insert type found types')

-- `s >> t`: the next word of the stream.
unfoldable pub read : Bytes → StringMap ContentType → ContentType × StringMap ContentType
unfolding from_string isspace
read s types = from_string (word (skip_spaces s)) types
