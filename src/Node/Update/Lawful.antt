-- ===== src/Node/Update/Lawful.antt =====
-- The fields that the `update_*` methods assign are read back, and are only parts of what a complete
-- service or action needs.
use zenoh_plugin_ros2dds.Base.{refl, str_eq, arith}
use zenoh_plugin_ros2dds.Interfaces.{
  service_srv_endpoints, service_cli_endpoints, action_srv_endpoints, action_cli_endpoints,
}
use zenoh_plugin_ros2dds.Node.Slots.Laws.{IsLawful}
use zenoh_plugin_ros2dds.Node.Update.{
  service_srv_req_reader, service_srv_rep_writer, service_cli_rep_reader, service_cli_req_writer,
  action_srv_send_req_reader, action_srv_send_rep_writer, action_srv_cancel_req_reader,
  action_srv_cancel_rep_writer, action_srv_result_req_reader, action_srv_result_rep_writer,
  action_srv_status_writer, action_srv_feedback_writer, action_cli_send_rep_reader,
  action_cli_send_req_writer, action_cli_cancel_rep_reader, action_cli_cancel_req_writer,
  action_cli_result_rep_reader, action_cli_result_req_writer, action_cli_status_reader,
  action_cli_feedback_reader,
}

pub service_srv_req_reader-IsLawful : IsLawful service_srv_req_reader
unfolding str_eq
service_srv_req_reader-IsLawful = record {
  read_write = λ g v. refl;
  complete_write = λ g v k c. ground arith;
  incomplete_first = λ g. ground arith;
}

pub service_srv_rep_writer-IsLawful : IsLawful service_srv_rep_writer
unfolding str_eq
service_srv_rep_writer-IsLawful = record {
  read_write = λ g v. refl;
  complete_write = λ g v k c. ground arith;
  incomplete_first = λ g. ground arith;
}

pub service_cli_rep_reader-IsLawful : IsLawful service_cli_rep_reader
unfolding str_eq
service_cli_rep_reader-IsLawful = record {
  read_write = λ g v. refl;
  complete_write = λ g v k c. ground arith;
  incomplete_first = λ g. ground arith;
}

pub service_cli_req_writer-IsLawful : IsLawful service_cli_req_writer
unfolding str_eq
service_cli_req_writer-IsLawful = record {
  read_write = λ g v. refl;
  complete_write = λ g v k c. ground arith;
  incomplete_first = λ g. ground arith;
}

pub action_srv_send_req_reader-IsLawful : IsLawful action_srv_send_req_reader
unfolding str_eq
action_srv_send_req_reader-IsLawful = record {
  read_write = λ g v. refl;
  complete_write = λ g v k c. ground arith;
  incomplete_first = λ g. ground arith;
}

pub action_srv_send_rep_writer-IsLawful : IsLawful action_srv_send_rep_writer
unfolding str_eq
action_srv_send_rep_writer-IsLawful = record {
  read_write = λ g v. refl;
  complete_write = λ g v k c. ground arith;
  incomplete_first = λ g. ground arith;
}

pub action_srv_cancel_req_reader-IsLawful : IsLawful action_srv_cancel_req_reader
unfolding str_eq
action_srv_cancel_req_reader-IsLawful = record {
  read_write = λ g v. refl;
  complete_write = λ g v k c. ground arith;
  incomplete_first = λ g. ground arith;
}

pub action_srv_cancel_rep_writer-IsLawful : IsLawful action_srv_cancel_rep_writer
unfolding str_eq
action_srv_cancel_rep_writer-IsLawful = record {
  read_write = λ g v. refl;
  complete_write = λ g v k c. ground arith;
  incomplete_first = λ g. ground arith;
}

pub action_srv_result_req_reader-IsLawful : IsLawful action_srv_result_req_reader
unfolding str_eq
action_srv_result_req_reader-IsLawful = record {
  read_write = λ g v. refl;
  complete_write = λ g v k c. ground arith;
  incomplete_first = λ g. ground arith;
}

pub action_srv_result_rep_writer-IsLawful : IsLawful action_srv_result_rep_writer
unfolding str_eq
action_srv_result_rep_writer-IsLawful = record {
  read_write = λ g v. refl;
  complete_write = λ g v k c. ground arith;
  incomplete_first = λ g. ground arith;
}

pub action_srv_status_writer-IsLawful : IsLawful action_srv_status_writer
unfolding str_eq
action_srv_status_writer-IsLawful = record {
  read_write = λ g v. refl;
  complete_write = λ g v k c. ground arith;
  incomplete_first = λ g. ground arith;
}

pub action_srv_feedback_writer-IsLawful : IsLawful action_srv_feedback_writer
unfolding str_eq
action_srv_feedback_writer-IsLawful = record {
  read_write = λ g v. refl;
  complete_write = λ g v k c. ground arith;
  incomplete_first = λ g. ground arith;
}

pub action_cli_send_rep_reader-IsLawful : IsLawful action_cli_send_rep_reader
unfolding str_eq
action_cli_send_rep_reader-IsLawful = record {
  read_write = λ g v. refl;
  complete_write = λ g v k c. ground arith;
  incomplete_first = λ g. ground arith;
}

pub action_cli_send_req_writer-IsLawful : IsLawful action_cli_send_req_writer
unfolding str_eq
action_cli_send_req_writer-IsLawful = record {
  read_write = λ g v. refl;
  complete_write = λ g v k c. ground arith;
  incomplete_first = λ g. ground arith;
}

pub action_cli_cancel_rep_reader-IsLawful : IsLawful action_cli_cancel_rep_reader
unfolding str_eq
action_cli_cancel_rep_reader-IsLawful = record {
  read_write = λ g v. refl;
  complete_write = λ g v k c. ground arith;
  incomplete_first = λ g. ground arith;
}

pub action_cli_cancel_req_writer-IsLawful : IsLawful action_cli_cancel_req_writer
unfolding str_eq
action_cli_cancel_req_writer-IsLawful = record {
  read_write = λ g v. refl;
  complete_write = λ g v k c. ground arith;
  incomplete_first = λ g. ground arith;
}

pub action_cli_result_rep_reader-IsLawful : IsLawful action_cli_result_rep_reader
unfolding str_eq
action_cli_result_rep_reader-IsLawful = record {
  read_write = λ g v. refl;
  complete_write = λ g v k c. ground arith;
  incomplete_first = λ g. ground arith;
}

pub action_cli_result_req_writer-IsLawful : IsLawful action_cli_result_req_writer
unfolding str_eq
action_cli_result_req_writer-IsLawful = record {
  read_write = λ g v. refl;
  complete_write = λ g v k c. ground arith;
  incomplete_first = λ g. ground arith;
}

pub action_cli_status_reader-IsLawful : IsLawful action_cli_status_reader
unfolding str_eq
action_cli_status_reader-IsLawful = record {
  read_write = λ g v. refl;
  complete_write = λ g v k c. ground arith;
  incomplete_first = λ g. ground arith;
}

pub action_cli_feedback_reader-IsLawful : IsLawful action_cli_feedback_reader
unfolding str_eq
action_cli_feedback_reader-IsLawful = record {
  read_write = λ g v. refl;
  complete_write = λ g v k c. ground arith;
  incomplete_first = λ g. ground arith;
}
