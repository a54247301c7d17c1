-- ===== src/Store/Records.antt =====
-- internal/store/store.go: the records that the store keeps. A pointer that may be nil is an
-- `Option`, a map with text keys a `Dict`. VMIDs and ports are natural numbers.
use lxc2docker.Prelude.{ℕ, Bool, List, Option}
use lxc2docker.Prelude.Int.{ℤ}
use lxc2docker.Strings.{Str}
use lxc2docker.Dict.{Dict}

-- `time.Time` and `time.Duration`: nanoseconds, from the epoch or between two times.
abbrev pub Time : Type 0
Time = ℤ

pub record HealthResult : Type 0 where
  pub start : Time
  pub end : Time
  pub exit_code : ℤ
  pub output : Str

pub record HealthcheckConfig : Type 0 where
  pub test : List Str
  pub interval : ℤ
  pub timeout : ℤ
  pub start_period : ℤ
  pub retries : ℤ

pub record EndpointIpamConfig : Type 0 where
  pub ipv4_address : Str
  pub ipv6_address : Str
  pub link_local_ips : List Str

pub record NetworkAttachment : Type 0 where
  pub network_id : Str
  pub ip_address : Str
  pub gateway : Str
  pub mac_address : Str
  pub endpoint_id : Str
  pub aliases : List Str
  pub links : List Str
  pub driver_opts : Dict Str
  pub ipam_config : Option EndpointIpamConfig

pub record NetworkRecord : Type 0 where
  pub id : Str
  pub name : Str
  pub driver : Str
  pub scope : Str
  pub created_at : Time
  pub labels : Dict Str
  pub options : Dict Str
  pub enable_ipv6 : Bool
  pub internal : Bool
  pub attachable : Bool
  pub ipam_driver : Str
  pub subnet : Str
  pub gateway : Str

pub record PortBinding : Type 0 where
  pub host_ip : Str
  pub host_port : ℕ
  pub container_port : ℕ
  pub proto : Str

pub record MountSpec : Type 0 where
  pub name : Str
  pub type : Str
  pub source : Str
  pub destination : Str
  pub read_only : Bool
  pub propagation : Str

pub record ContainerRecord : Type 0 where
  pub id : Str
  pub vmid : ℕ
  pub name : Str
  pub image : Str
  pub image_id : Str
  pub image_digest : Str
  pub created : Time
  pub entrypoint : List Str
  pub cmd : List Str
  pub env : List Str
  pub labels : Dict Str
  pub ip_address : Str
  pub lan_mac_address : Str
  pub port_bindings : List PortBinding
  pub mounts : List MountSpec
  pub started_at : Option Time
  pub finished_at : Option Time
  pub exit_code : ℤ
  pub hostname : Str
  pub domainname : Str
  pub user : Str
  pub attach_stdin : Bool
  pub attach_stdout : Bool
  pub attach_stderr : Bool
  pub tty : Bool
  pub open_stdin : Bool
  pub stdin_once : Bool
  pub working_dir : Str
  pub stop_signal : Str
  pub exposed_ports : Dict (Unit {0})
  pub volumes : Dict (Unit {0})
  pub stop_timeout : ℤ
  pub oom_score_adj : ℤ
  pub restart_policy : Str
  pub restart_max_retry : ℤ
  pub restart_count : ℤ
  pub auto_remove : Bool
  pub stopped_by_user : Bool
  pub networks : Dict NetworkAttachment
  pub raw_host_config : Str
  pub pending_create : Str
  pub healthcheck_test : List Str
  pub healthcheck_interval : ℤ
  pub healthcheck_timeout : ℤ
  pub healthcheck_retries : ℤ
  pub healthcheck_start_period : ℤ
  pub start_error : Str
  pub health_status : Str
  pub health_failing_streak : ℤ
  pub health_last_check : Option Time
  pub health_log : List HealthResult

pub record ImageRecord : Type 0 where
  pub id : Str
  pub ref : Str
  pub distro : Str
  pub release : Str
  pub arch : Str
  pub template_name : Str
  pub template_vmid : ℕ
  pub created : Time
  pub oci_entrypoint : List Str
  pub oci_cmd : List Str
  pub oci_env : List Str
  pub oci_working_dir : Str
  pub oci_hostname : Str
  pub oci_domainname : Str
  pub oci_mac_address : Str
  pub oci_ports : List Str
  pub oci_labels : Dict Str
  pub oci_user : Str
  pub oci_attach_stdin : Bool
  pub oci_attach_stdout : Bool
  pub oci_attach_stderr : Bool
  pub oci_tty : Bool
  pub oci_open_stdin : Bool
  pub oci_stdin_once : Bool
  pub oci_args_escaped : Bool
  pub oci_network_disabled : Bool
  pub oci_stop_signal : Str
  pub oci_stop_timeout : ℤ
  pub oci_healthcheck : Option HealthcheckConfig
  pub oci_volumes : List Str
  pub oci_on_build : List Str
  pub oci_shell : List Str
  pub oci_author : Str
  pub oci_comment : Str
  pub oci_container : Str
  pub oci_docker_version : Str
  pub oci_variant : Str
  pub template_dataset : Str
  pub template_tarball : Str
  pub repo_digest : Str
  pub config_digest : Str

pub record VolumeRecord : Type 0 where
  pub name : Str
  pub driver : Str
  pub mountpoint : Str
  pub created : Time
  pub created_at : Time
  pub labels : Dict Str
  pub options : Dict Str
  pub owner_id : Str
  pub anonymous : Bool
