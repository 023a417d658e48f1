-- ===== src/Printd/Ipp.antt =====
-- The request that printer_thread of apue.3e/printer/printd.c sends: the IPP header with its options,
-- and the HTTP header.
use my_study.Base.{
  ℕ, ◌+◌, ◌/◌, ◌%◌, ◌^◌, Bool, Option, none, some, [], ◌∷◌, ◌++◌, length, ltb, leb, if◌then◌else◌,
}
use my_study.Base.Bytes.{Bytes, decimal}
use my_study.Printd.Tag

-- "attributes-charset"
abbrev pub attributes_charset : Bytes
attributes_charset =
    b'a' ∷ b't' ∷ b't' ∷ b'r' ∷ b'i' ∷ b'b' ∷ b'u' ∷ b't' ∷ b'e' ∷ b's' ∷ b'-' ∷ b'c' ∷ b'h' ∷ b'a'
    ∷ b'r' ∷ b's' ∷ b'e' ∷ b't' ∷ []

-- "utf-8"
abbrev pub utf_8 : Bytes
utf_8 = b'u' ∷ b't' ∷ b'f' ∷ b'-' ∷ b'8' ∷ []

-- "attributes-natural-language"
abbrev pub attributes_natural_language : Bytes
attributes_natural_language =
    b'a' ∷ b't' ∷ b't' ∷ b'r' ∷ b'i' ∷ b'b' ∷ b'u' ∷ b't' ∷ b'e' ∷ b's' ∷ b'-' ∷ b'n' ∷ b'a' ∷ b't'
    ∷ b'u' ∷ b'r' ∷ b'a' ∷ b'l' ∷ b'-' ∷ b'l' ∷ b'a' ∷ b'n' ∷ b'g' ∷ b'u' ∷ b'a' ∷ b'g' ∷ b'e' ∷ []

-- "en-us"
abbrev pub en_us : Bytes
en_us = b'e' ∷ b'n' ∷ b'-' ∷ b'u' ∷ b's' ∷ []

-- "printer-uri"
abbrev pub printer_uri : Bytes
printer_uri = b'p' ∷ b'r' ∷ b'i' ∷ b'n' ∷ b't' ∷ b'e' ∷ b'r' ∷ b'-' ∷ b'u' ∷ b'r' ∷ b'i' ∷ []

-- "http://"
abbrev pub http_scheme : Bytes
http_scheme = b'h' ∷ b't' ∷ b't' ∷ b'p' ∷ b':' ∷ b'/' ∷ b'/' ∷ []

-- "/ipp"
abbrev pub ipp_path : Bytes
ipp_path = b'/' ∷ b'i' ∷ b'p' ∷ b'p' ∷ []

-- "requesting-user-name"
abbrev pub requesting_user_name : Bytes
requesting_user_name =
    b'r' ∷ b'e' ∷ b'q' ∷ b'u' ∷ b'e' ∷ b's' ∷ b't' ∷ b'i' ∷ b'n' ∷ b'g' ∷ b'-' ∷ b'u' ∷ b's' ∷ b'e'
    ∷ b'r' ∷ b'-' ∷ b'n' ∷ b'a' ∷ b'm' ∷ b'e' ∷ []

-- "job-name"
abbrev pub job_name : Bytes
job_name = b'j' ∷ b'o' ∷ b'b' ∷ b'-' ∷ b'n' ∷ b'a' ∷ b'm' ∷ b'e' ∷ []

-- "document-format"
abbrev pub document_format : Bytes
document_format =
    b'd' ∷ b'o' ∷ b'c' ∷ b'u' ∷ b'm' ∷ b'e' ∷ b'n' ∷ b't' ∷ b'-' ∷ b'f' ∷ b'o' ∷ b'r' ∷ b'm' ∷ b'a'
    ∷ b't' ∷ []

-- "text/plain"
abbrev pub text_plain : Bytes
text_plain = b't' ∷ b'e' ∷ b'x' ∷ b't' ∷ b'/' ∷ b'p' ∷ b'l' ∷ b'a' ∷ b'i' ∷ b'n' ∷ []

-- "application/postscript"
abbrev pub application_postscript : Bytes
application_postscript =
    b'a' ∷ b'p' ∷ b'p' ∷ b'l' ∷ b'i' ∷ b'c' ∷ b'a' ∷ b't' ∷ b'i' ∷ b'o' ∷ b'n' ∷ b'/' ∷ b'p' ∷ b'o'
    ∷ b's' ∷ b't' ∷ b's' ∷ b'c' ∷ b'r' ∷ b'i' ∷ b'p' ∷ b't' ∷ []

-- "POST /ipp HTTP/1.1\r\n"
abbrev pub post_line : Bytes
post_line =
    b'P' ∷ b'O' ∷ b'S' ∷ b'T' ∷ b' ' ∷ b'/' ∷ b'i' ∷ b'p' ∷ b'p' ∷ b' ' ∷ b'H' ∷ b'T' ∷ b'T' ∷ b'P'
    ∷ b'/' ∷ b'1' ∷ b'.' ∷ b'1' ∷ 13 ∷ 10 ∷ []

-- "Content-Length: "
abbrev pub content_length : Bytes
content_length =
    b'C' ∷ b'o' ∷ b'n' ∷ b't' ∷ b'e' ∷ b'n' ∷ b't' ∷ b'-' ∷ b'L' ∷ b'e' ∷ b'n' ∷ b'g' ∷ b't' ∷ b'h'
    ∷ b':' ∷ b' ' ∷ []

-- "Content-Type: application/ipp\r\n"
abbrev pub content_type : Bytes
content_type =
    b'C' ∷ b'o' ∷ b'n' ∷ b't' ∷ b'e' ∷ b'n' ∷ b't' ∷ b'-' ∷ b'T' ∷ b'y' ∷ b'p' ∷ b'e' ∷ b':' ∷ b' '
    ∷ b'a' ∷ b'p' ∷ b'p' ∷ b'l' ∷ b'i' ∷ b'c' ∷ b'a' ∷ b't' ∷ b'i' ∷ b'o' ∷ b'n' ∷ b'/' ∷ b'i'
    ∷ b'p' ∷ b'p' ∷ 13 ∷ 10 ∷ []

-- "Host: "
abbrev pub host_field : Bytes
host_field = b'H' ∷ b'o' ∷ b's' ∷ b't' ∷ b':' ∷ b' ' ∷ []

-- ":631\r\n"
abbrev pub port_631 : Bytes
port_631 = b':' ∷ b'6' ∷ b'3' ∷ b'1' ∷ 13 ∷ 10 ∷ []

-- "\r\n"
abbrev pub crlf : Bytes
crlf = 13 ∷ 10 ∷ []

-- The two bytes of `htons(n)`, and the four of `htonl(n)`.
unfoldable pub be16 : ℕ → Bytes
be16 n = n / 256 % 256 ∷ n % 256 ∷ []

unfoldable pub be32 : ℕ → Bytes
unfolding be16
be32 n = be16 (n / 2 ^ 16) ++ be16 n

-- `add_option`: the buffer up to the pointer that it returns.
unfoldable pub add_option : Bytes → ℕ → Bytes → Bytes → Bytes
add_option buf tag optname optval =
    buf ++ (tag ∷ (be16 (length optname) ++ (optname ++ (be16 (length optval) ++ optval))))

-- OP_PRINT_JOB
abbrev pub op_print_job : ℕ
op_print_job = 2

-- What `sprintf` writes to `str`.
abbrev pub uri_text : Bytes → Bytes
uri_text printer_name = http_scheme ++ (printer_name ++ ipp_path)

-- `str`, of 64 bytes with the NUL; none is an overrun.
unfoldable pub uri_of : Bytes → Option Bytes
uri_of printer_name =
    if ltb (length (uri_text printer_name)) 64 then some (uri_text printer_name) else none

abbrev pub format_of : Bool → Bytes
format_of text = if text then text_plain else application_postscript

-- The bytes written to `ibuf` up to `icp`, of a job with the names of its user and of itself.
unfoldable pub ipp_bytes : Bytes → ℕ → Bytes → Bytes → Bool → Bytes
ipp_bytes uri jobid usernm jobnm text =
    let start = 1 ∷ 1 ∷ (be16 op_print_job ++ (be32 jobid ++ (Tag.operation_attr ∷ []))) in
    let a = add_option start Tag.charset attributes_charset utf_8 in
    let b = add_option a Tag.natulang attributes_natural_language en_us in
    let c = add_option b Tag.uri printer_uri uri in
    let d = add_option c Tag.namewolang requesting_user_name usernm in
    let e = add_option d Tag.namewolang job_name jobnm in
    add_option e Tag.mimetype document_format (format_of text) ++ (Tag.end_of_attr ∷ [])

-- IBUFSZ and HBUFSZ
abbrev pub ibufsz : ℕ
ibufsz = 512

abbrev pub hbufsz : ℕ
hbufsz = 512

-- What a buffer of `size` bytes holds; none is an overrun.
unfoldable pub within : ℕ → Bytes → Option Bytes
within size bytes = if leb (length bytes) size then some bytes else none

-- The header with what `str` holds.
unfoldable pub with_uri : ℕ → Bytes → Bytes → Bool → Option Bytes → Option Bytes
unfolding ipp_bytes within
with_uri jobid usernm jobnm text none = none
with_uri jobid usernm jobnm text (some uri) = within ibufsz (ipp_bytes uri jobid usernm jobnm text)

-- `ibuf` up to `icp`; none is an overrun of `str` or of `ibuf`.
unfoldable pub ipp_header : Bytes → ℕ → Bytes → Bytes → Bool → Option Bytes
unfolding with_uri uri_of
ipp_header printer_name jobid usernm jobnm text =
    with_uri jobid usernm jobnm text (uri_of printer_name)

-- The byte that goes before a plain text, "\b".
abbrev pub hack : Bool → Bytes
hack text = if text then 8 ∷ [] else []

-- The bytes written to `hbuf` up to `hcp`, for a body of `size` bytes.
unfoldable pub http_bytes : Bytes → ℕ → Bytes
http_bytes printer_name size =
    post_line
    ++ (content_length
        ++ (decimal size
            ++ (crlf ++ (content_type ++ (host_field ++ (printer_name ++ (port_631 ++ crlf)))))))

-- `hbuf` up to `hcp`; none is an overrun.
unfoldable pub http_header : Bytes → ℕ → Option Bytes
unfolding http_bytes within
http_header printer_name size = within hbufsz (http_bytes printer_name size)

-- The writes of `hbuf` and `ibuf`, and of what follows.
unfoldable pub send_headers : Option Bytes → Bytes → Bytes → Option Bytes
send_headers none ibuf rest = none
send_headers (some hbuf) ibuf rest = some (hbuf ++ (ibuf ++ rest))

-- The HTTP header for `ibuf`, and the writes.
unfoldable pub send_body : Bytes → Bool → Bytes → Option Bytes → Option Bytes
unfolding http_header send_headers
send_body printer_name text file none = none
send_body printer_name text file (some ibuf) =
    let extra = if text then 1 else 0 in
    send_headers (http_header printer_name (length file + length ibuf + extra)) ibuf
      (hack text ++ file)

-- What the printer is sent where no call fails: the two headers and the file, of `length file` bytes;
-- none where a header overruns its buffer.
unfoldable pub send_job : Bytes → ℕ → Bytes → Bytes → Bool → Bytes → Option Bytes
unfolding ipp_header send_body
send_job printer_name jobid usernm jobnm text file =
    send_body printer_name text file (ipp_header printer_name jobid usernm jobnm text)
