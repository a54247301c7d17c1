-- ===== src/Store/Samples.antt =====
-- Records for the tests.
use lxc2docker.Prelude.{[], false, none}
use lxc2docker.Prelude.Int.{pos}
use lxc2docker.Store.Records.{ContainerRecord, ImageRecord}

abbrev pub blank_container : ContainerRecord
blank_container = record {
  id = [];
  vmid = 0;
  name = [];
  image = [];
  image_id = [];
  image_digest = [];
  created = pos 0;
  entrypoint = [];
  cmd = [];
  env = [];
  labels = [];
  ip_address = [];
  lan_mac_address = [];
  port_bindings = [];
  mounts = [];
  started_at = none;
  finished_at = none;
  exit_code = pos 0;
  hostname = [];
  domainname = [];
  user = [];
  attach_stdin = false;
  attach_stdout = false;
  attach_stderr = false;
  tty = false;
  open_stdin = false;
  stdin_once = false;
  working_dir = [];
  stop_signal = [];
  exposed_ports = [];
  volumes = [];
  stop_timeout = pos 0;
  oom_score_adj = pos 0;
  restart_policy = [];
  restart_max_retry = pos 0;
  restart_count = pos 0;
  auto_remove = false;
  stopped_by_user = false;
  networks = [];
  raw_host_config = [];
  pending_create = [];
  healthcheck_test = [];
  healthcheck_interval = pos 0;
  healthcheck_timeout = pos 0;
  healthcheck_retries = pos 0;
  healthcheck_start_period = pos 0;
  start_error = [];
  health_status = [];
  health_failing_streak = pos 0;
  health_last_check = none;
  health_log = [];
}

abbrev pub blank_image : ImageRecord
blank_image = record {
  id = [];
  ref = [];
  distro = [];
  release = [];
  arch = [];
  template_name = [];
  template_vmid = 0;
  created = pos 0;
  oci_entrypoint = [];
  oci_cmd = [];
  oci_env = [];
  oci_working_dir = [];
  oci_hostname = [];
  oci_domainname = [];
  oci_mac_address = [];
  oci_ports = [];
  oci_labels = [];
  oci_user = [];
  oci_attach_stdin = false;
  oci_attach_stdout = false;
  oci_attach_stderr = false;
  oci_tty = false;
  oci_open_stdin = false;
  oci_stdin_once = false;
  oci_args_escaped = false;
  oci_network_disabled = false;
  oci_stop_signal = [];
  oci_stop_timeout = pos 0;
  oci_healthcheck = none;
  oci_volumes = [];
  oci_on_build = [];
  oci_shell = [];
  oci_author = [];
  oci_comment = [];
  oci_container = [];
  oci_docker_version = [];
  oci_variant = [];
  template_dataset = [];
  template_tarball = [];
  repo_digest = [];
  config_digest = [];
}
