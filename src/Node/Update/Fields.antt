-- ===== src/Node/Update/Fields.antt =====
-- The fields that the `update_service_*` and `update_action_*` methods read and assign.
use zenoh_plugin_ros2dds.Interfaces.{
  ServiceSrvEntities, ServiceCliEntities, ActionSrvEntities, ActionCliEntities,
}
use zenoh_plugin_ros2dds.Node.Slots.{Slot}

abbrev pub service_srv_req_reader : Slot ServiceSrvEntities
service_srv_req_reader = record {
  read = λ e. e.req_reader;
  write = λ g e. record e { req_reader = g };
}

abbrev pub service_srv_rep_writer : Slot ServiceSrvEntities
service_srv_rep_writer = record {
  read = λ e. e.rep_writer;
  write = λ g e. record e { rep_writer = g };
}

abbrev pub service_cli_rep_reader : Slot ServiceCliEntities
service_cli_rep_reader = record {
  read = λ e. e.rep_reader;
  write = λ g e. record e { rep_reader = g };
}

abbrev pub service_cli_req_writer : Slot ServiceCliEntities
service_cli_req_writer = record {
  read = λ e. e.req_writer;
  write = λ g e. record e { req_writer = g };
}

abbrev pub action_srv_send_req_reader : Slot ActionSrvEntities
action_srv_send_req_reader = record {
  read = λ e. e.send_goal.req_reader;
  write = λ g e. record e { send_goal = record e.send_goal { req_reader = g } };
}

abbrev pub action_srv_send_rep_writer : Slot ActionSrvEntities
action_srv_send_rep_writer = record {
  read = λ e. e.send_goal.rep_writer;
  write = λ g e. record e { send_goal = record e.send_goal { rep_writer = g } };
}

abbrev pub action_srv_cancel_req_reader : Slot ActionSrvEntities
action_srv_cancel_req_reader = record {
  read = λ e. e.cancel_goal.req_reader;
  write = λ g e. record e { cancel_goal = record e.cancel_goal { req_reader = g } };
}

abbrev pub action_srv_cancel_rep_writer : Slot ActionSrvEntities
action_srv_cancel_rep_writer = record {
  read = λ e. e.cancel_goal.rep_writer;
  write = λ g e. record e { cancel_goal = record e.cancel_goal { rep_writer = g } };
}

abbrev pub action_srv_result_req_reader : Slot ActionSrvEntities
action_srv_result_req_reader = record {
  read = λ e. e.get_result.req_reader;
  write = λ g e. record e { get_result = record e.get_result { req_reader = g } };
}

abbrev pub action_srv_result_rep_writer : Slot ActionSrvEntities
action_srv_result_rep_writer = record {
  read = λ e. e.get_result.rep_writer;
  write = λ g e. record e { get_result = record e.get_result { rep_writer = g } };
}

abbrev pub action_srv_status_writer : Slot ActionSrvEntities
action_srv_status_writer = record {
  read = λ e. e.status_writer;
  write = λ g e. record e { status_writer = g };
}

abbrev pub action_srv_feedback_writer : Slot ActionSrvEntities
action_srv_feedback_writer = record {
  read = λ e. e.feedback_writer;
  write = λ g e. record e { feedback_writer = g };
}

abbrev pub action_cli_send_rep_reader : Slot ActionCliEntities
action_cli_send_rep_reader = record {
  read = λ e. e.send_goal.rep_reader;
  write = λ g e. record e { send_goal = record e.send_goal { rep_reader = g } };
}

abbrev pub action_cli_send_req_writer : Slot ActionCliEntities
action_cli_send_req_writer = record {
  read = λ e. e.send_goal.req_writer;
  write = λ g e. record e { send_goal = record e.send_goal { req_writer = g } };
}

abbrev pub action_cli_cancel_rep_reader : Slot ActionCliEntities
action_cli_cancel_rep_reader = record {
  read = λ e. e.cancel_goal.rep_reader;
  write = λ g e. record e { cancel_goal = record e.cancel_goal { rep_reader = g } };
}

abbrev pub action_cli_cancel_req_writer : Slot ActionCliEntities
action_cli_cancel_req_writer = record {
  read = λ e. e.cancel_goal.req_writer;
  write = λ g e. record e { cancel_goal = record e.cancel_goal { req_writer = g } };
}

abbrev pub action_cli_result_rep_reader : Slot ActionCliEntities
action_cli_result_rep_reader = record {
  read = λ e. e.get_result.rep_reader;
  write = λ g e. record e { get_result = record e.get_result { rep_reader = g } };
}

abbrev pub action_cli_result_req_writer : Slot ActionCliEntities
action_cli_result_req_writer = record {
  read = λ e. e.get_result.req_writer;
  write = λ g e. record e { get_result = record e.get_result { req_writer = g } };
}

abbrev pub action_cli_status_reader : Slot ActionCliEntities
action_cli_status_reader = record {
  read = λ e. e.status_reader;
  write = λ g e. record e { status_reader = g };
}

abbrev pub action_cli_feedback_reader : Slot ActionCliEntities
action_cli_feedback_reader = record {
  read = λ e. e.feedback_reader;
  write = λ g e. record e { feedback_reader = g };
}
