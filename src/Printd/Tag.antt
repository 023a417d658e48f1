-- ===== src/Printd/Tag.antt =====
-- The tags of apue.3e/printer/ipp.h that the daemon sends.
use my_study.Base.{ℕ}

abbrev pub operation_attr : ℕ
operation_attr = 1

abbrev pub end_of_attr : ℕ
end_of_attr = 3

abbrev pub namewolang : ℕ
namewolang = 66

abbrev pub uri : ℕ
uri = 69

abbrev pub charset : ℕ
charset = 71

abbrev pub natulang : ℕ
natulang = 72

abbrev pub mimetype : ℕ
mimetype = 73
