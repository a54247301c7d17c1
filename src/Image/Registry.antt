-- ===== src/Image/Registry.antt =====
-- internal/image/registry.go: the built-in application images.
use lxc2docker.Prelude.{[], ◌∷◌, List, Option}
use lxc2docker.Strings.{Str, codes}
use lxc2docker.Dict.{Dict, get}

pub record AppDef : Type 0 where
  pub base : Str
  pub packages : List Str
  pub post_install : Str
  pub default_cmd : Str

nginx : AppDef
nginx = record {
  base = codes "debian:bookworm";
  packages = codes "nginx" ∷ [];
  post_install = codes "rm -rf /var/lib/apt/lists/*";
  default_cmd = codes "nginx -g 'daemon off;'";
}

redis : AppDef
redis = record {
  base = codes "debian:bookworm";
  packages = codes "redis-server" ∷ [];
  post_install = codes "rm -rf /var/lib/apt/lists/*";
  default_cmd = codes "redis-server";
}

postgres : AppDef
postgres = record {
  base = codes "debian:bookworm";
  packages = codes "postgresql" ∷ [];
  post_install =
      codes
        "rm -rf /var/lib/apt/lists/* && mkdir -p /var/run/postgresql && chown postgres:postgres /var/run/postgresql";
  default_cmd = codes "postgres";
}

mysql : AppDef
mysql = record {
  base = codes "debian:bookworm";
  packages = codes "default-mysql-server" ∷ [];
  post_install = codes "rm -rf /var/lib/apt/lists/*";
  default_cmd = codes "mysqld";
}

mariadb : AppDef
mariadb = record {
  base = codes "debian:bookworm";
  packages = codes "mariadb-server" ∷ [];
  post_install = codes "rm -rf /var/lib/apt/lists/*";
  default_cmd = codes "mariadbd";
}

node : AppDef
node = record {
  base = codes "debian:bookworm";
  packages = codes "nodejs" ∷ codes "npm" ∷ [];
  post_install = codes "rm -rf /var/lib/apt/lists/*";
  default_cmd = codes "node";
}

python : AppDef
python = record {
  base = codes "debian:bookworm";
  packages = codes "python3" ∷ codes "python3-pip" ∷ [];
  post_install = codes "rm -rf /var/lib/apt/lists/*";
  default_cmd = codes "python3";
}

php : AppDef
php = record {
  base = codes "debian:bookworm";
  packages = codes "php-cli" ∷ codes "php-fpm" ∷ [];
  post_install = codes "rm -rf /var/lib/apt/lists/*";
  default_cmd = codes "php-fpm8.2 -F";
}

memcached : AppDef
memcached = record {
  base = codes "debian:bookworm";
  packages = codes "memcached" ∷ [];
  post_install = codes "rm -rf /var/lib/apt/lists/*";
  default_cmd = codes "memcached";
}

rabbitmq : AppDef
rabbitmq = record {
  base = codes "debian:bookworm";
  packages = codes "rabbitmq-server" ∷ [];
  post_install = codes "rm -rf /var/lib/apt/lists/*";
  default_cmd = codes "rabbitmq-server";
}

haproxy : AppDef
haproxy = record {
  base = codes "debian:bookworm";
  packages = codes "haproxy" ∷ [];
  post_install = codes "rm -rf /var/lib/apt/lists/*";
  default_cmd = codes "haproxy -f /etc/haproxy/haproxy.cfg";
}

caddy : AppDef
caddy = record {
  base = codes "debian:bookworm";
  packages =
      codes "debian-keyring"
      ∷ codes "debian-archive-keyring"
      ∷ codes "apt-transport-https"
      ∷ codes "curl"
      ∷ [];
  post_install =
      codes
        "curl -1sLf 'https://dl.cloudsmith.io/public/caddy/stable/gpg.key' | gpg --dearmor -o /usr/share/keyrings/caddy-stable-archive-keyring.gpg && curl -1sLf 'https://dl.cloudsmith.io/public/caddy/stable/debian.deb.txt' | tee /etc/apt/sources.list.d/caddy-stable.list && apt-get update && apt-get install -y caddy && rm -rf /var/lib/apt/lists/*";
  default_cmd = codes "caddy run --config /etc/caddy/Caddyfile";
}

sunshine : AppDef
sunshine = record {
  base = codes "ubuntu:22.04";
  packages = [];
  post_install = codes "apt-get update && apt-get install -y curl && rm -rf /var/lib/apt/lists/*";
  default_cmd = codes "sunshine";
}

unfoldable pub known_apps : Dict AppDef
unfolding nginx redis postgres mysql mariadb node python php memcached rabbitmq haproxy caddy
    sunshine
known_apps =
    (codes "nginx", nginx)
    ∷ (codes "redis", redis)
    ∷ (codes "postgres", postgres)
    ∷ (codes "mysql", mysql)
    ∷ (codes "mariadb", mariadb)
    ∷ (codes "node", node)
    ∷ (codes "python", python)
    ∷ (codes "php", php)
    ∷ (codes "memcached", memcached)
    ∷ (codes "rabbitmq", rabbitmq)
    ∷ (codes "haproxy", haproxy)
    ∷ (codes "caddy", caddy)
    ∷ (codes "sunshine", sunshine)
    ∷ []

unfoldable pub lookup_app : Str → Option AppDef
lookup_app name = get name known_apps
