-- ===== src/Printd/Fits.antt =====
-- The length of the request's header, and the names that leave room for it in the buffers of
-- printer_thread.
use my_study.Base.{
  ℕ, ◌≡◌, refl, ap, ◌∙◌, ◌+◌, ◌<◌, Bool, none, some, List, [], ◌∷◌, ◌++◌, if◌then◌else◌, arith,
  length, length-append, ◌≤◌, ltb, lt→ltb, le→leb,
}
use my_study.Base.Bytes.{Bytes}
use my_study.Printd.Ipp.{
  be16, be32, ipp_bytes, ipp_header, uri_text, uri_of, with_uri, within, ibufsz, ipp_path,
  format_of,
}
use my_study.Printd.Attributes.{
  Attribute, encoded, encoded_all, print_attributes, ipp_bytes-encoded,
}

-- The bytes of attributes and of the tag behind them.
abbrev sizes : List Attribute → ℕ
sizes [] = 1
sizes (a ∷ attrs) = 5 + length a.name + length a.value + sizes attrs

length-encoded : (a : Attribute) → length (encoded a) ≡ 5 + length a.name + length a.value
unfolding be16
length-encoded a = rw (length-append a.name (be16 (length a.value) ++ a.value)) (omega arith)

length-encoded_all : (attrs : List Attribute) → length (encoded_all attrs) ≡ sizes attrs
length-encoded_all [] = refl
length-encoded_all (a ∷ attrs) =
    rw (length-append (encoded a) (encoded_all attrs), length-encoded a, length-encoded_all attrs)

pub length-uri_text :
    (printer_name : Bytes) → length (uri_text printer_name) ≡ 11 + length printer_name
length-uri_text printer_name = omega (arith, length-append printer_name ipp_path)

pub length-ipp_bytes :
    (printer_name usernm jobnm : Bytes) (jobid : ℕ) (text : Bool)
    → length (ipp_bytes (uri_text printer_name) jobid usernm jobnm text)
      ≡ 160 + length printer_name + length usernm + length jobnm + length (format_of text)
unfolding be32 be16
length-ipp_bytes printer_name usernm jobnm jobid text =
    rw
      (
        ipp_bytes-encoded printer_name usernm jobnm jobid text,
        length-encoded_all (print_attributes printer_name usernm jobnm text),
        length-append printer_name ipp_path,
      )
      (omega arith)

-- The names leave room in `str` and in `ibuf`.
pub record Fits (printer_name usernm jobnm : Bytes) (text : Bool) : Type 0 where
  pub in_str : 11 + length printer_name < 64
  pub in_ibuf :
      160 + length printer_name + length usernm + length jobnm + length (format_of text) ≤ ibufsz

pub uri_of-length :
    (printer_name : Bytes)
    → uri_of printer_name
      ≡ (if ltb (11 + length printer_name) 64 then some (uri_text printer_name) else none)
unfolding uri_of
uri_of-length printer_name =
    ap (λ n. if ltb n 64 then some (uri_text printer_name) else none) (length-uri_text printer_name)

pub within-true : (size : ℕ) (s : Bytes) → length s ≤ size → within size s ≡ some s
unfolding within
within-true size s h = rw (le→leb (length s) size h)

uri_of-Fits :
    (printer_name : Bytes)
    → 11 + length printer_name < 64
    → uri_of printer_name ≡ some (uri_text printer_name)
unfolding uri_of
uri_of-Fits printer_name h =
    rw (lt→ltb (length (uri_text printer_name)) 64 (omega (arith, length-uri_text printer_name, h)))

pub ipp_header-Fits :
    (printer_name usernm jobnm : Bytes) (jobid : ℕ) (text : Bool)
    → Fits printer_name usernm jobnm text
    → ipp_header printer_name jobid usernm jobnm text
      ≡ some (ipp_bytes (uri_text printer_name) jobid usernm jobnm text)
unfolding ipp_header with_uri
ipp_header-Fits printer_name usernm jobnm jobid text fits =
    ap (with_uri jobid usernm jobnm text) (uri_of-Fits printer_name fits.in_str)
    ∙ within-true ibufsz (ipp_bytes (uri_text printer_name) jobid usernm jobnm text)
        (omega (arith, length-ipp_bytes printer_name usernm jobnm jobid text, fits.in_ibuf))
