-- ===== src/Printd/Encoded.antt =====
-- What the request to the printer says: read back by the rules of IPP.
use my_study.Base.{
  ℕ, ◌≡◌, ◌+◌, ◌*◌, ◌/◌, ◌%◌, ◌^◌, ◌<◌, Bool, true, false, Option, none, some, List, [], ◌∷◌, All,
  arith, length,
}
use my_study.Base.Bytes.{Bytes}
use my_study.Printd.Tag
use my_study.Printd.Ipp.{be16, be32, ipp_header, uri_text, format_of}
use my_study.Printd.Attributes.{
  Attribute, and_then, read_attributes, Short, read_attributes-all, print_attributes,
  ipp_bytes-encoded,
}
use my_study.Printd.Fits.{Fits, length-uri_text, ipp_header-Fits}

-- A request by the rules of IPP: versions, operation, number, and the attributes of the first group.
pub record Request : Type 0 where
  pub major : ℕ
  pub minor : ℕ
  pub operation : ℕ
  pub request_id : ℕ
  pub group : ℕ
  pub attributes : Option (List Attribute × Bytes)

unfoldable pub read_request : ℕ → Bytes → Option Request
read_request fuel (v ∷ w ∷ o ∷ p ∷ a ∷ b ∷ c ∷ d ∷ g ∷ s) = some (record {
  major = v;
  minor = w;
  operation = o * 256 + p;
  request_id = ((a * 256 + b) * 256 + c) * 256 + d;
  group = g;
  attributes = read_attributes fuel s;
})
read_request fuel _ = none

-- Where the names leave room in `str`, of 64 bytes, and in `ibuf`, of 512, the daemon builds a header
-- that is, read by the rules of IPP, a request of version 1.1 to print the job of this number, below
-- 2^31, with exactly the six attributes that it means, in order, and nothing behind them.
pub read_request-ipp_header :
    (printer_name usernm jobnm : Bytes) (jobid : ℕ) (text : Bool)
    → jobid < 2 ^ 31
    → Fits printer_name usernm jobnm text
    → and_then (ipp_header printer_name jobid usernm jobnm text) (read_request 7)
      ≡ some (record {
        major = 1;
        minor = 1;
        operation = 2;
        request_id = jobid;
        group = Tag.operation_attr;
        attributes = some (print_attributes printer_name usernm jobnm text, []);
      })
unfolding read_request be16 be32
read_request-ipp_header printer_name usernm jobnm jobid text small fits =
    let number : ((jobid / 2 ^ 16 / 256 % 256 * 256 + jobid / 2 ^ 16 % 256) * 256
              + jobid / 256 % 256)
            * 256
          + jobid % 256
        ≡ jobid =
      omega arith in
    rw (
      ipp_header-Fits printer_name usernm jobnm jobid text fits,
      ipp_bytes-encoded printer_name usernm jobnm jobid text,
      number,
      read_attributes-all (print_attributes printer_name usernm jobnm text) (short text),
    )
  where
    format_short : (text : Bool) → length (format_of text) < 2 ^ 16
    format_short true = omega arith
    format_short false = omega arith

    uri : length (uri_text printer_name) < 2 ^ 16
    uri = omega (arith, length-uri_text printer_name, fits.in_str)

    user : length usernm < 2 ^ 16
    user = omega (arith, fits.in_ibuf)

    job : length jobnm < 2 ^ 16
    job = omega (arith, fits.in_ibuf)

    short : (text : Bool) → All Short (print_attributes printer_name usernm jobnm text)
    short text = (
      ((λ e. omega arith), (omega arith, omega arith)),
      (
        ((λ e. omega arith), (omega arith, omega arith)),
        (
          ((λ e. omega arith), (omega arith, uri)),
          (
            ((λ e. omega arith), (omega arith, user)),
            (
              ((λ e. omega arith), (omega arith, job)),
              (((λ e. omega arith), (omega arith, format_short text)), tt),
            ),
          ),
        ),
      ),
    )
