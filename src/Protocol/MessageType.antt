-- ===== src/Protocol/MessageType.antt =====
-- `enum class MessageType : std::uint16_t` of kernel/src/protocol.hpp.
use madre.Base.{ℕ}

abbrev pub hello : ℕ
hello = 1

abbrev pub hello_response : ℕ
hello_response = 2

abbrev pub submit : ℕ
submit = 10

abbrev pub submit_response : ℕ
submit_response = 11

abbrev pub status : ℕ
status = 20

abbrev pub status_response : ℕ
status_response = 21

abbrev pub result : ℕ
result = 30

abbrev pub result_response : ℕ
result_response = 31

abbrev pub acknowledge : ℕ
acknowledge = 40

abbrev pub acknowledge_response : ℕ
acknowledge_response = 41

abbrev pub cancel : ℕ
cancel = 50

abbrev pub cancel_response : ℕ
cancel_response = 51

abbrev pub list_engines : ℕ
list_engines = 60

abbrev pub list_engines_response : ℕ
list_engines_response = 61

abbrev pub engine_status : ℕ
engine_status = 70

abbrev pub engine_status_response : ℕ
engine_status_response = 71

abbrev pub error : ℕ
error = 90

abbrev pub worker_execute : ℕ
worker_execute = 200

abbrev pub worker_result : ℕ
worker_result = 201

abbrev pub worker_failure : ℕ
worker_failure = 202
