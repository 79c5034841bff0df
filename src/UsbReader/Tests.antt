-- ===== src/UsbReader/Tests.antt =====
-- A request to close object 0.
use twili.Base.{[], false, refl, true, ◌∷◌, ◌≡◌}
use twili.UsbReader.{
  Handlers, Reader, begin_processing_command, has, leaves, only_zero, reset_handler,
}

abbrev with_objects : Reader
with_objects = record {
  objects = 0 ∷ 2 ∷ [];
  current_header = 0 ∷ 0 ∷ 0 ∷ 0 ∷ 0 ∷ 0 ∷ 0 ∷ 0 ∷ 255 ∷ 255 ∷ 255 ∷ 255 ∷ [];
  received = 0;
  payload_buffer = [];
  object_ids = [];
  has_state = false;
  has_object = false;
  has_handler = false;
}

abbrev opens_none : Handlers
opens_none = record {
  open_request = λ mh. (true, false);
  flush = λ q. leaves false [];
  finish = λ q. q;
  memory_code = 0;
}

close_all : (begin_processing_command opens_none with_objects).0.objects ≡ 0 ∷ []
unfolding begin_processing_command has only_zero reset_handler
close_all = refl
