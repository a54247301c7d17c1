-- ===== src/Image/Table.antt =====
-- internal/image/distro.go: the table of distributions.
use lxc2docker.Prelude.{[], ◌∷◌}
use lxc2docker.Strings.{Str, codes}
use lxc2docker.Dict.{Dict}

pub record DistroMeta : Type 0 where
  pub lxc_name : Str
  pub version_map : Dict Str

ubuntu : DistroMeta
ubuntu = record {
  lxc_name = codes "ubuntu";
  version_map =
      (codes "24.04", codes "noble")
      ∷ (codes "22.04", codes "jammy")
      ∷ (codes "20.04", codes "focal")
      ∷ (codes "18.04", codes "bionic")
      ∷ (codes "16.04", codes "xenial")
      ∷ (codes "noble", codes "noble")
      ∷ (codes "jammy", codes "jammy")
      ∷ (codes "focal", codes "focal")
      ∷ (codes "bionic", codes "bionic")
      ∷ (codes "xenial", codes "xenial")
      ∷ (codes "latest", codes "jammy")
      ∷ (codes "lts", codes "jammy")
      ∷ (codes "rolling", codes "noble")
      ∷ (codes "devel", codes "noble")
      ∷ [];
}

debian : DistroMeta
debian = record {
  lxc_name = codes "debian";
  version_map =
      (codes "12", codes "bookworm")
      ∷ (codes "11", codes "bullseye")
      ∷ (codes "10", codes "buster")
      ∷ (codes "9", codes "stretch")
      ∷ (codes "bookworm", codes "bookworm")
      ∷ (codes "bullseye", codes "bullseye")
      ∷ (codes "buster", codes "buster")
      ∷ (codes "stretch", codes "stretch")
      ∷ (codes "stable", codes "bookworm")
      ∷ (codes "oldstable", codes "bullseye")
      ∷ (codes "latest", codes "bookworm")
      ∷ (codes "slim", codes "bookworm")
      ∷ (codes "bookworm-slim", codes "bookworm")
      ∷ (codes "bullseye-slim", codes "bullseye")
      ∷ [];
}

alpine : DistroMeta
alpine = record {
  lxc_name = codes "alpine";
  version_map = (codes "latest", codes "3.19") ∷ (codes "edge", codes "edge") ∷ [];
}

fedora : DistroMeta
fedora = record {
  lxc_name = codes "fedora";
  version_map =
      (codes "latest", codes "39")
      ∷ (codes "39", codes "39")
      ∷ (codes "38", codes "38")
      ∷ (codes "40", codes "40")
      ∷ [];
}

centos : DistroMeta
centos = record {
  lxc_name = codes "centos";
  version_map =
      (codes "stream9", codes "9-Stream")
      ∷ (codes "stream8", codes "8-Stream")
      ∷ (codes "latest", codes "9-Stream")
      ∷ (codes "9", codes "9-Stream")
      ∷ (codes "8", codes "8-Stream")
      ∷ [];
}

rockylinux : DistroMeta
rockylinux = record {
  lxc_name = codes "rockylinux";
  version_map = (codes "9", codes "9") ∷ (codes "8", codes "8") ∷ (codes "latest", codes "9") ∷ [];
}

almalinux : DistroMeta
almalinux = record {
  lxc_name = codes "almalinux";
  version_map = (codes "9", codes "9") ∷ (codes "8", codes "8") ∷ (codes "latest", codes "9") ∷ [];
}

archlinux : DistroMeta
archlinux = record {
  lxc_name = codes "archlinux";
  version_map = (codes "latest", codes "current") ∷ (codes "base", codes "current") ∷ [];
}

opensuse : DistroMeta
opensuse = record {
  lxc_name = codes "opensuse";
  version_map =
      (codes "leap", codes "15.5")
      ∷ (codes "tumbleweed", codes "tumbleweed")
      ∷ (codes "latest", codes "15.5")
      ∷ [];
}

kali : DistroMeta
kali = record {
  lxc_name = codes "kali";
  version_map = (codes "latest", codes "current") ∷ (codes "rolling", codes "current") ∷ [];
}

unfoldable pub known_distros : Dict DistroMeta
unfolding ubuntu debian alpine fedora centos rockylinux almalinux archlinux opensuse kali
known_distros =
    (codes "ubuntu", ubuntu)
    ∷ (codes "debian", debian)
    ∷ (codes "alpine", alpine)
    ∷ (codes "fedora", fedora)
    ∷ (codes "centos", centos)
    ∷ (codes "rockylinux", rockylinux)
    ∷ (codes "almalinux", almalinux)
    ∷ (codes "archlinux", archlinux)
    ∷ (codes "opensuse", opensuse)
    ∷ (codes "kali", kali)
    ∷ []
