-- ===== src/Printd/Lengths.antt =====
-- How long the request is that apue.3e/printer/printd.c sends, and what it says of that.
use my_study.Base.{
  ℕ, ◌≡◌, refl, ap, ◌∙◌, ◌+◌, ◌&&◌, Bool, true, false, none, some, ◌++◌, if◌then◌else◌, length, ltb,
  leb,
}
use my_study.Base.Bytes.{Bytes}
use my_study.Printd.Ipp.{ipp_bytes, ipp_header, uri_text, with_uri, within, hack, format_of}
use my_study.Printd.Fits.{uri_of-length, length-ipp_bytes, Fits}

-- The header takes 160 bytes besides the names of the printer, the user, the job and the format. The
-- daemon builds it within its buffers exactly where the printer's name and 11 bytes leave room for a
-- NUL in `str`, of 64 bytes, and the header takes no more than the 512 bytes of `ibuf`; otherwise it
-- overruns one of the two.
pub length-ipp_header :
    (printer_name usernm jobnm : Bytes) (jobid : ℕ) (text : Bool)
    → (length (ipp_bytes (uri_text printer_name) jobid usernm jobnm text)
        ≡ 160 + length printer_name + length usernm + length jobnm + length (format_of text))
      × (ipp_header printer_name jobid usernm jobnm text ≡ (
          if ltb (11 + length printer_name) 64
            && leb
                (160 + length printer_name + length usernm + length jobnm + length (format_of text))
                512
          then some (ipp_bytes (uri_text printer_name) jobid usernm jobnm text)
          else none))
unfolding ipp_header with_uri within
length-ipp_header printer_name usernm jobnm jobid text = (
  length-ipp_bytes printer_name usernm jobnm jobid text,
  ap (with_uri jobid usernm jobnm text) (uri_of-length printer_name)
      ∙ built (ltb (11 + length printer_name) 64),
)
  where
    ibuf : Bytes
    ibuf = ipp_bytes (uri_text printer_name) jobid usernm jobnm text

    built :
        (b : Bool)
        → with_uri jobid usernm jobnm text (if b then some (uri_text printer_name) else none) ≡ (
            if b
              && leb
                  (160
                    + length printer_name
                    + length usernm
                    + length jobnm
                    + length (format_of text))
                  512
            then some ibuf
            else none)
    built true =
        ap (λ n. if leb n 512 then some ibuf else none)
          (length-ipp_bytes printer_name usernm jobnm jobid text)
    built false = refl

-- What follows the HTTP header.
abbrev pub body_of : Bytes → Bytes → Bytes → Bytes → ℕ → Bool → Bytes
body_of printer_name usernm jobnm file jobid text =
    ipp_bytes (uri_text printer_name) jobid usernm jobnm text ++ (hack text ++ file)
