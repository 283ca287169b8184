-- ===== src/FileSink.antt =====
-- src/sinks/file.c: the sink that writes a response to a file. The calls of libc and of the user's
-- callback are logged, the newest first; what `fopen` and `fwrite` answer are arguments. A result
-- `none` is a write to a stream that is NULL.
pub mod Streams
mod Tests
use a_curl_library.Base.{
  ℕ, ◌*◌, ◌%◌, ◌^◌, Bool, true, false, Option, none, some, List, [], ◌∷◌, ℤ, pos, is_some,
}
use a_curl_library.Request.{Text, Pointer}

pub data FileEvent : Type 0 where
  opened closed : (stream : Pointer) → FileEvent
  wrote : (stream : Pointer) (size nmemb : ℕ) → FileEvent
  -- the user's callback, with what it is told
  told : (callback : Pointer) (success : Bool) (result http_code : ℤ) → FileEvent

-- `file_sink_s`, and the log
pub record File : Type 0 where
  pub file : Option Pointer
  pub filename : Text
  pub callback : Option Pointer
  pub log : List FileEvent

-- `file_sink`
abbrev pub file_sink : Text → Option Pointer → File
file_sink filename callback = record {
  file = none;
  filename = filename;
  callback = callback;
  log = [];
}

abbrev pub emit : FileEvent → File → File
emit e f = record f { log = e ∷ f.log }

-- `if (file->file) fclose(file->file)`
unfoldable pub close_file : File → File
close_file f = elim f.file [ none ↦ f | some h ↦ emit (closed h) f ]

abbrev pub log_opened : Option Pointer → File → File
log_opened none f = f
log_opened (some h) f = emit (opened h) f

-- `file_init`: a stream of an earlier attempt is closed
unfoldable pub file_init : (answer : Option Pointer) → File → File × Bool
unfolding close_file
file_init answer f = (record (log_opened answer (close_file f)) { file = answer }, is_some answer)

-- `file_write`: `written` is what `fwrite` returns
unfoldable pub file_write : (size nmemb written : ℕ) → File → Option (File × ℕ)
file_write size nmemb written f = elim f.file [
  | none ↦ none
  | some h ↦ some (emit (wrote h size nmemb) f, (written * size) % 2 ^ 64)
]

abbrev pub tell : Bool → (result http_code : ℤ) → File → File
tell success result http_code f = elim f.callback [
  | none ↦ f
  | some cb ↦ emit (told cb success result http_code) f
]

abbrev pub file_failure : (result http_code : ℤ) → File → File
file_failure result http_code f = tell false result http_code f

-- `file_complete`
abbrev pub file_complete : File → File
file_complete f = tell true (pos 0) (pos 200) f

-- `file_destroy`
unfoldable pub file_destroy : File → File
unfolding close_file
file_destroy f = close_file f
